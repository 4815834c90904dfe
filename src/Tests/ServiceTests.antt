-- ===== src/Tests/ServiceTests.antt =====
-- The theorems on the services, the configuration and the commands at concrete inputs.
use passdoq.Prelude.{
  ℕ, ◌≡◌, refl, true, false, Option, none, some, List, [], ◌∷◌, ◌++◌, if◌then◌else◌, ◌+◌, ◌==◌,
}
use passdoq.Prelude.Exec.{ok}
use passdoq.Prelude.Text.{Text, codes, eq_text}
use passdoq.Platform.Sample.{toy}
use passdoq.Tests.Sessions.{path, ready}
use passdoq.Services.{stopped, Service, Registry, start_all}
use passdoq.Services.Laws.{all_start, started_services, start_events, start_all_lem}
use passdoq.Runcom.{Config, from_string}
use passdoq.Runcom.Files.{Host, load_defaults, load_first, get_default_paths}
use passdoq.Cli.Run.{init, parsed, run, handler, start_path}
use passdoq.Cli.Console.{App, say, prompt_password}
use passdoq.Cli.Commands.{cmd_init}
use passdoq.Cli.Laws.{run-exit_code}

-- A service that counts its starts, and whose `stop` fails after an odd number of them.
abbrev counter : Service ℕ
counter = record {
  name = codes "c";
  status = λ n. stopped;
  start = λ n. (true, n + 1);
  stop = λ n. (n == 0, n);
  self = 0;
}

abbrev registry : Registry ℕ
registry = record { services = (codes "c", counter) ∷ []; log = [] }

start_all_lem_example : start_all registry ≡ (
  all_start registry.services,
  record {
    services = started_services registry.services;
    log = [] ++ start_events registry.services;
  },
)
start_all_lem_example = start_all_lem registry

abbrev config : Config
config = record { values = (codes "a", from_string (codes "x")) ∷ []; loaded_files = [] }

-- One file, which includes itself.
abbrev looping : Text → Option Text
looping q = if eq_text q (codes "/a") then some (codes "#include \"/a\"") else none

abbrev host : Host
host = record { content = looping; exists = λ q. true; getenv = λ q. none; prl = λ t. (true, []) }

abbrev app : List Text → App
app typed = record {
  session = ready;
  config = config;
  vault_path = path;
  input = typed;
  printed = [];
}

abbrev typed_init : List Text
typed_init = codes "one" ∷ codes "two" ∷ codes "rest" ∷ []

-- A host without files.
abbrev bare_host : Host
bare_host = record {
  content = λ q. none;
  exists = λ q. false;
  getenv = λ q. none;
  prl = λ t. (true, []);
}

-- The handler of `init` fails with the code 1, and `run` gives 0.
run-exit_code_example :
    run bare_host 1 true (parsed (some path) (init ∷ [])) (app typed_init)
    ≡ some (ok 0, (cmd_init (app typed_init)).1)
unfolding load_defaults handler load_first get_default_paths start_path cmd_init eq_text say
    prompt_password
run-exit_code_example =
    run-exit_code bare_host 1 1 (some path) init (app typed_init) (cmd_init (app typed_init)).1
      false config refl refl
