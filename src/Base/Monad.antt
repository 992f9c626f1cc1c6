-- ===== src/Base/Monad.antt =====
-- How a run of the program ends. `panic` of core.h logs at LOG_PANIC, which exits the process; an
-- undefined access is a fault. Both end the run, so they are the error cases of one result type,
-- and a function with a pointer to its state is a computation over that state.
use mathlib.Core.Path.{◌≡◌, refl}
use Prim.Native.Nat.{ℕ}
use mathlib.Core.Bool.{Bool}
use byte_shatter.Base.Tests.{if◌then◌else◌}

pub data Error : Type 0 where
  -- the decoder's panics
  unknown_symbol unknown_0f_symbol unknown_grp3 : ℕ → Error
  unhandled_f7 : Error
  -- the encoder's panics
  too_large_distance : Error
  unhandled unknown_instruction unknown_8bit_instruction : ℕ → Error
  -- the cache's panics
  blocks_overflow offset_overflow reuse_overflow host_overflow : Error
  -- the patcher's and the context pool's
  unknown_patch no_free_context : Error
  -- those of the program start: the stack, the loader, the libraries and the log level
  map_failed no_dynamic_section relocation_failed wrapper_not_found unknown_log_level : Error
  -- undefined in C: a null pointer is followed, a table is read past its end
  null_pointer out_of_bounds : Error
  -- the process is killed by a signal that is blocked, or panics in the handler of a fault
  killed segfault : Error
  -- no end of the program's: a loop of the model used up its fuel
  out_of_fuel : Error

pub data Result {ℓ} (A : Type ℓ) : Type ℓ where
  ok : A → Result A
  err : Error → Result A

-- A computation over a state `S` that returns an `A`.
abbrev pub M : Type 0 → Type 0 → Type 0
M S A = S → Result (A × S)

module _ {S : Type 0} where
  abbrev pub pure : {A : Type 0} → A → M S A
  pure a s = ok (a, s)

  abbrev pub fail : {A : Type 0} → Error → M S A
  fail e s = err e

  infixl 5 ◌>>=◌ ◌>>◌
  abbrev pub ◌>>=◌ : {A B : Type 0} → M S A → (A → M S B) → M S B
  ◌>>=◌ m f s = elim (m s) [ ok (a, s') ↦ f a s' | err e ↦ err e ]

  abbrev pub ◌>>◌ : {B : Type 0} → M S (Unit {0}) → M S B → M S B
  m >> k = m >>= λ _. k

  abbrev pub get : M S S
  get s = ok (s, s)

  abbrev pub modify : (S → S) → M S (Unit {0})
  modify f s = ok (tt, f s)

  -- `if (b) m;`
  abbrev pub when : Bool → M S (Unit {0}) → M S (Unit {0})
  when b m = if b then m else pure tt

-- `P` holds of the result, if there is one.
pub data Post {ℓ} {A : Type ℓ} (P : A → Type 0) : Result A → Type ℓ where
  returns : {a : A} → P a → Post P (ok a)
  raises : {e : Error} → Post P (err e)

pub Post-ok {ℓ} : {A : Type ℓ} {P : A → Type 0} {a : A} → Post P (ok a) → P a
Post-ok (returns h) = h

pub Post-mono {ℓ} :
    {A : Type ℓ} {P Q : A → Type 0} {r : Result A} → ((a : A) → P a → Q a) → Post P r → Post Q r
Post-mono k (returns h) = returns (k _ h)
Post-mono k raises = raises

-- The error of the first computation is that of the sequence.
abbrev pub bind_result : {S A B : Type 0} → Result (A × S) → (A → M S B) → Result (B × S)
bind_result (ok (a, s)) f = f a s
bind_result (err e) f = err e

bind_result-eq :
    {S A B : Type 0} (r : Result (A × S)) (f : A → M S B)
    → elim r [ ok (a, s') ↦ f a s' | err e ↦ err e ] ≡ bind_result r f
bind_result-eq (ok (a, s)) f = refl
bind_result-eq (err e) f = refl

Post-bind_result :
    {S A B : Type 0} {P : A × S → Type 0} {Q : B × S → Type 0} (r : Result (A × S)) (f : A → M S B)
    → Post P r
    → ((a : A) (s' : S) → P (a, s') → Post Q (f a s'))
    → Post Q (bind_result r f)
Post-bind_result (ok (a, s)) f (returns p) k = k a s p
Post-bind_result (err e) f raises k = raises

pub Post-bind :
    {S A B : Type 0} {P : A × S → Type 0} {Q : B × S → Type 0} (m : M S A) (f : A → M S B) (s : S)
    → Post P (m s)
    → ((a : A) (s' : S) → P (a, s') → Post Q (f a s'))
    → Post Q ((m >>= f) s)
Post-bind m f s h k = rw (bind_result-eq (m s) f) (Post-bind_result (m s) f h k)

-- A step that succeeds hands its result and its state to the rest.
pub bind-ok :
    {S A B : Type 0} (m : M S A) (f : A → M S B) (s : S) {a : A} {s' : S}
    → m s ≡ ok (a, s')
    → (m >>= f) s ≡ f a s'
bind-ok m f s {a} {s' = t} e = rw (bind_result-eq (m s) f) (rw e)

pub bind-err :
    {S A B : Type 0} (m : M S A) (f : A → M S B) (s : S) {e : Error}
    → m s ≡ err e
    → (m >>= f) s ≡ err e
bind-err m f s h = rw (bind_result-eq (m s) f) (rw h)
