-- ===== src/Kube/Errors.antt =====
-- Errors, the texts that `fmt.Sprintf` builds, and the reply of a fallible call.
use kterodactyl.Prelude.{◌≡◌, refl, ◌⊎◌, inl, inr, ℤ, String, Bool, true, false}
use kterodactyl.Lifecycle.{GameServerState, BackupState}

-- the errors of internal/auth/errors.go
pub data Sentinel : Type 0 where
  err_user_exists err_user_not_found err_invalid_credentials err_invalid_token : Sentinel
  err_token_expired err_invite_expired err_invite_used err_invalid_username : Sentinel
  err_registration_disabled : Sentinel

-- `wrap` is `fmt.Errorf("...: %w", err)`, `detail` `fmt.Errorf("%w: ...", err)`, and `noted`
-- `fmt.Errorf("...: %w (stderr: %s)", err, text)`. `failed` is an error of the API that is none of
-- the two that the program asks for, or one of another library, or of the program's own text.
pub data Err : Type 0 where
  not_found already_exists : Err
  failed : String → Err
  wrap : String → Err → Err
  invalid_transition : GameServerState → GameServerState → Err
  sentinel : Sentinel → Err
  detail : Err → String → Err
  noted : String → Err → String → Err

-- `errors.IsNotFound` and `errors.IsAlreadyExists`, which look through wrapped errors
abbrev pub is_not_found : Err → Bool
is_not_found not_found = true
is_not_found (wrap s e) = is_not_found e
is_not_found (detail e s) = is_not_found e
is_not_found (noted s e t) = is_not_found e
is_not_found _ = false

abbrev pub is_already_exists : Err → Bool
is_already_exists already_exists = true
is_already_exists (wrap s e) = is_already_exists e
is_already_exists (detail e s) = is_already_exists e
is_already_exists (noted s e t) = is_already_exists e
is_already_exists _ = false

-- One piece of a formatted text; a text is the list of its pieces, in order.
pub data Piece : Type 0 where
  str : String → Piece
  int : ℤ → Piece
  of_err : Err → Piece
  of_state : GameServerState → Piece
  of_backup_state : BackupState → Piece

pub data Reply {ℓ} (A : Type ℓ) : Type ℓ where
  ok : A → Reply A
  err : Err → Reply A

abbrev pub is_ok {ℓ} : {A : Type ℓ} → Reply A → Bool
is_ok (ok a) = true
is_ok (err e) = false

-- `return fmt.Errorf("...: %w", err)` on an error
abbrev pub or_wrap {ℓ} : {A : Type ℓ} → String → Reply A → Reply A
or_wrap context (ok a) = ok a
or_wrap context (err e) = err (wrap context e)

pub ok_inj {ℓ} : {A : Type ℓ} {a b : A} → ok a ≡ ok b → a ≡ b
ok_inj h = cc

pub Reply-cases {ℓ} :
    {A : Type ℓ} (r : Reply A) → ((a : A) × (r ≡ ok a)) ⊎ ((e : Err) × (r ≡ err e))
Reply-cases (ok a) = inl (a, refl)
Reply-cases (err e) = inr (e, refl)
