-- ===== src/Daemon/Redirection.antt =====
-- The end of `Daemon::daemonize` in src/daemon.cpp: the standard descriptors of the process are
-- closed, and opened again on `/dev/null`.
use passdoq.Prelude.{
  ℕ, ◌≡◌, refl, Option, none, some, if◌then◌else◌, ltb, leb, arith, at_number, Option-cases, inl,
  inr,
}
use passdoq.Prelude.Text.{Text, codes}

-- The file that a descriptor stands for; `none` for one that is free.
abbrev pub Descriptors : Type 0
Descriptors = ℕ → Option Text

unfoldable pub close : ℕ → Descriptors → Descriptors
close fd t = at_number fd none t

abbrev dup_open : Option Text → ℕ → Descriptors → Descriptors
dup_open none target t = t
dup_open (some file) target t = at_number target (some file) t

-- `dup2`, which does nothing for a descriptor that is free.
unfoldable pub dup2 : ℕ → ℕ → Descriptors → Descriptors
dup2 fd target t = dup_open (t fd) target t

-- From the opening on, with the descriptor that `open` gave; `none` is a result below 0.
unfoldable pub redirect_to : Option ℕ → Descriptors → Descriptors
unfolding close dup2
redirect_to none t = t
redirect_to (some fd) t =
    let u = dup2 fd 2 (dup2 fd 1 (dup2 fd 0 (at_number fd (some (codes "/dev/null")) t))) in
    if ltb 2 fd then close fd u else u

-- `open_null` gives the descriptor of a new `/dev/null`, for the descriptors that are in use.
unfoldable pub redirect : (Descriptors → Option ℕ) → Descriptors → Descriptors
unfolding close redirect_to
redirect open_null t = let u = close 2 (close 1 (close 0 t)) in redirect_to (open_null u) u

dup2_lem :
    (fd target : ℕ) (file : Text) (t : Descriptors)
    → t fd ≡ some file
    → (dup2 fd target t ≡ at_number target (some file) t)
      × (at_number target (some file) t fd ≡ some file)
unfolding dup2
dup2_lem fd target file t e = (rw e refl, grind (arith, e))

redirect_to-some :
    (fd : ℕ) (t : Descriptors) (n : ℕ)
    → t fd ≡ none
    → redirect_to (some fd) t n ≡ (if leb n 2 then some (codes "/dev/null") else t n)
unfolding redirect_to close
redirect_to-some fd t n free =
    let file : Text = codes "/dev/null" in
    let t0 : Descriptors = at_number fd (some file) t in
    let (a, e0) = dup2_lem fd 0 file t0 (grind arith) in
    let t1 : Descriptors = at_number 0 (some file) t0 in
    let (b, e1) = dup2_lem fd 1 file t1 e0 in
    let t2 : Descriptors = at_number 1 (some file) t1 in
    let (c, e2) = dup2_lem fd 2 file t2 e1 in rw (a, b, c) (grind (arith, free))

-- Where `open` gives a descriptor that is free: after the redirection the three standard descriptors
-- stand for `/dev/null`, or are closed where that cannot be opened, and every other descriptor stands
-- for what it did.
pub redirect_lem :
    (open_null : Descriptors → Option ℕ) (t : Descriptors) (n : ℕ)
    → ((u : Descriptors) (fd : ℕ) → open_null u ≡ some fd → u fd ≡ none)
    → let u = close 2 (close 1 (close 0 t)) in
      redirect open_null t n ≡ (
        if leb n 2
        then elim (open_null u) [ none ↦ none | some fd ↦ some (codes "/dev/null") ]
        else t n)
unfolding redirect close
redirect_lem open_null t n free =
    let u = close 2 (close 1 (close 0 t)) in
    elim (Option-cases (open_null u)) [
      | inl e ↦ rw e (grind arith)
      | inr (fd, e) ↦ rw e (rw (redirect_to-some fd u n (free u fd e)) (grind arith))
    ]
