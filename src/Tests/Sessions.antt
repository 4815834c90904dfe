-- ===== src/Tests/Sessions.antt =====
-- Concrete sessions over the sample platform.
use passdoq.Prelude.{refl, none, some, [], ◌∷◌, ◌++◌, take, arith, replicate}
use passdoq.Prelude.Text.{Text, Bytes, codes, eq_text, lt_text}
use passdoq.StdMap.{StdMap}
use passdoq.Platform.Sample.{toy, toy_world}
use passdoq.Vault.{Entry, VaultHeader, Session, new_vault, unlocked, locked}
use passdoq.Vault.Keys.Reopen.{Seals}
use passdoq.Vault.Keys.Lifecycle.{IsReady}
use passdoq.Vault.Invariant.Methods.{Valid}
use passdoq.Vault.Codec.Roundtrip.{IsStorable, IsKeyed, AllStorable}
use passdoq.StdMap.Laws.{IsSorted}

abbrev pub path : Text
path = codes "v"

abbrev pub pass : Text
pass = codes "pw"

abbrev pub fresh : Session
fresh = record { vault = new_vault; world = toy_world }

-- A data key, the salt, and what the sample platform derives and wraps.
abbrev pub dkey : Bytes
dkey = replicate 32 7

abbrev pub salt : Bytes
salt = replicate 16 5

abbrev pub master : Bytes
master = take 32 (pass ++ (salt ++ replicate 32 0))

abbrev pub header : VaultHeader
header = record {
  version = 1;
  salt = salt;
  encrypted_data_key = take 16 master ++ dkey;
  data_key_nonce = replicate 24 3;
}

abbrev pub mail : Entry
mail = record {
  id = codes "0a";
  name = codes "mail";
  username = codes "me";
  secret = codes "s3cret";
  metadata = (codes "url", codes "example") ∷ [];
  tags = codes "home" ∷ [];
  created = 1500000000;
  modified = 2500000000;
}

abbrev pub bank : Entry
bank = record mail { id = codes "0b"; name = codes "bank"; metadata = []; tags = codes "work" ∷ [] }

abbrev pub two : StdMap Entry
two = (codes "0a", mail) ∷ (codes "0b", bank) ∷ []

abbrev pub ready : Session
ready = record {
  vault = record {
    path = path;
    state = unlocked;
    header = header;
    master_key = some master;
    data_key = some dkey;
    entries = two;
  };
  world = toy_world;
}

abbrev pub closed : Session
closed = record ready {
  vault = record (ready.vault) { state = locked; master_key = none; data_key = none; entries = [] };
}

unfoldable pub header-Seals : Seals pass header dkey
unfolding eq_text
header-Seals = record {
  master = master;
  salt_size = omega arith;
  derives = refl;
  master_size = refl;
  key_size = refl;
  nonce_size = refl;
  wrapped_size = omega arith;
  opens = refl;
}

unfoldable pub ready-IsReady : IsReady pass dkey ready.vault
unfolding header-Seals
ready-IsReady = record {
  is_unlocked = refl;
  data_key = refl;
  seals = header-Seals;
  master_key = refl;
  version = omega arith;
}

pub ready-IsValid : Valid ready
unfolding lt_text
ready-IsValid = record {
  keys = λ h. (master, dkey, refl, refl, refl, refl);
  closed = λ h. absurd (h refl);
  sorted = ((refl, tt), (tt, tt));
  keyed = (refl, (refl, tt));
}

pub closed-IsValid : Valid closed
closed-IsValid = record {
  keys = λ h. absurd (ground arith);
  closed = λ h. refl;
  sorted = tt;
  keyed = tt;
}

pub mail-IsStorable : IsStorable mail
mail-IsStorable = record {
  created_fits = omega arith;
  modified_fits = omega arith;
  metadata-IsSorted = (tt, tt);
}

pub bank-IsStorable : IsStorable bank
bank-IsStorable = record {
  created_fits = omega arith;
  modified_fits = omega arith;
  metadata-IsSorted = tt;
}

pub two-IsSorted : IsSorted two
unfolding lt_text
two-IsSorted = ((refl, tt), (tt, tt))

pub two-IsKeyed : IsKeyed two
two-IsKeyed = (refl, (refl, tt))

pub two-AllStorable : AllStorable two
two-AllStorable = (mail-IsStorable, (bank-IsStorable, tt))
