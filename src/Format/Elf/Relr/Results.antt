-- ===== src/Format/Elf/Relr/Results.antt =====
-- src/format/elf/relr.rs: what holds of the results of steps that may fail.
use trim.Prelude.{Bool, true, false, ◌≡◌, refl, subst, String}
use trim.Format.Elf.Relr.Header.{Result, and_then, refuse_if}

-- What holds of a result, if there is one.
unfoldable pub OnOk {ℓ κ} : {A : Type ℓ} → (A → Type κ) → Result A → Type κ
OnOk P (Result.ok x) = P x
OnOk P (Result.err e) = Unit

pub OnOk-and_then {ℓ ℓ' κ} :
    {A : Type ℓ} {B : Type ℓ'} (P : B → Type κ) (r : Result A) (f : A → Result B)
    → ((x : A) → OnOk P (f x))
    → OnOk P (and_then r f)
unfolding OnOk and_then
OnOk-and_then P (Result.ok x) f h = h x
OnOk-and_then P (Result.err e) f h = tt

pub OnOk-and_then_both {ℓ ℓ' κ κ'} :
    {A : Type ℓ} {B : Type ℓ'} (Q : A → Type κ') (P : B → Type κ) (r : Result A) (f : A → Result B)
    → OnOk Q r
    → ((x : A) → Q x → OnOk P (f x))
    → OnOk P (and_then r f)
unfolding OnOk and_then
OnOk-and_then_both Q P (Result.ok x) f q h = h x q
OnOk-and_then_both Q P (Result.err e) f q h = tt

pub OnOk-ok {ℓ κ} : {A : Type ℓ} (P : A → Type κ) (x : A) → P x → OnOk P (Result.ok x)
unfolding OnOk
OnOk-ok P x h = h

pub OnOk-elim {ℓ κ} :
    {A : Type ℓ} (P : A → Type κ) (r : Result A) (x : A) → r ≡ Result.ok x → OnOk P r → P x
unfolding OnOk
OnOk-elim P r x e h = subst (OnOk P) e h

-- What is not refused passed the test.
pub OnOk-refuse {ℓ κ} :
    {A : Type ℓ} (P : A → Type κ) (refused : Bool) (e : String) (r : Result A)
    → (refused ≡ false → OnOk P r)
    → OnOk P (refuse_if refused e r)
unfolding OnOk refuse_if
OnOk-refuse P true e r h = tt
OnOk-refuse P false e r h = h refl
