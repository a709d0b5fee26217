-- ===== src/Kube/Exec.antt =====
-- Actions against the cluster. What was written before an error stays written, so the state comes
-- back beside the error too. `S` is the state of everything outside the program.
pub mod Results
pub mod Leaves
pub mod Runs
use kterodactyl.Prelude.{String}
use kterodactyl.Kube.Errors.{Err, Reply, ok, err, or_wrap}

abbrev pub Exec {ℓ} : Type ℓ → Type ℓ → Type ℓ
Exec S A = S → Reply A × S

module _ {S A : Type 0} where
  unfoldable pub pure : A → Exec S A
  pure a s = (ok a, s)

  unfoldable pub fail : Err → Exec S A
  fail e s = (err e, s)

  -- `if err != nil { return fmt.Errorf("...: %w", err) }`
  unfoldable pub wrapping : String → Exec S A → Exec S A
  wrapping context m s = let (r, s') = m s in (or_wrap context r, s')

  -- the error as a value, for code that looks at it
  unfoldable pub attempt : Exec S A → Exec S (Reply A)
  attempt m s = let (r, s') = m s in (ok r, s')

-- a step that has no result and cannot fail
unfoldable pub modify : {S : Type 0} → (S → S) → Exec S (Unit {0})
modify f s = (ok tt, f s)

module _ {S A B : Type 0} where
  abbrev pub continue : Reply A → (A → Exec S B) → Exec S B
  continue (ok a) f s = f a s
  continue (err e) f s = (err e, s)

  infixl 10 ◌>>=◌ ◌>>◌
  -- opening this opens the other actions too
  unfoldable pub ◌>>=◌ : Exec S A → (A → Exec S B) → Exec S B
  unfolding pure fail wrapping attempt modify
  ◌>>=◌ m f before = let (reply, now) = m before in continue reply f now

  abbrev pub ◌>>◌ : Exec S A → Exec S B → Exec S B
  first >> second = first >>= λ ignored. second
