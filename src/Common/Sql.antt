-- ===== src/Common/Sql.antt =====
-- The database as the code sees it: the errors of sqlx that the code tells apart, and how one
-- statement may end. A statement that reports an error may still have been carried out.
use Prim.Native.String.{String}
use text.Mathlib.Text
use text.Mathlib.TextEquality.{eq_iff}
use mathlib.Core.Path.{◌≡◌, refl, sym, ap, subst}
use mathlib.Core.Logic.{inl, inr}
use mathlib.Core.Bool.{Bool, true, false}
use cja.Common.Tests.{Bool-cases}
use mathlib.Core.Option.{Option}
use mathlib.Core.List.{List, [], ◌∷◌}

-- `sqlx::Error`: a reply of the database with its SQLSTATE, or a failure on the way to it.
pub data SqlError : Type 0 where
  database : Option String → SqlError
  io pool_closed row_not_found other : SqlError

-- `==` of texts.
abbrev pub str_is : String → String → Bool
str_is a b = Text.◌==◌ a b

pub str_is_refl : (a : String) → str_is a a ≡ true
str_is_refl a = (eq_iff a a).1 refl

-- Equal strings are compared alike.
pub str_is-same : (a b c : String) → str_is a b ≡ true → str_is a c ≡ str_is b c
str_is-same a b c h = ap (λ x. str_is x c) ((eq_iff a b).0 h)

differs : (b : Bool) → b ≡ true → b ≡ false → ⊥
differs b h k = cc

pub str_is_sym : (a b : String) → str_is a b ≡ false → str_is b a ≡ false
str_is_sym a b h = elim (Bool-cases (str_is b a)) [
  | inl t ↦ absurd (
      differs (str_is a b) (subst (λ x. str_is a x ≡ true) (sym ((eq_iff b a).0 t)) (str_is_refl a))
        h)
  | inr f ↦ f
]

-- How a statement ends: carried out; refused; carried out with its reply lost.
pub data Fault : Type 0 where
  deliver : Fault
  refuse lost : SqlError → Fault

pub data Result {ℓ κ} (E : Type ℓ) (A : Type κ) : Type (ℓ ⊔ κ) where
  ok : A → Result E A
  err : E → Result E A

-- A database with the faults still to come; when none are listed, statements are carried out.
pub record World (S : Type 0) : Type 0 where
  pub db : S
  pub faults : List Fault

abbrev pub next_fault : List Fault → Fault
next_fault [] = deliver
next_fault (f ∷ _) = f

abbrev pub rest_faults : List Fault → List Fault
rest_faults [] = []
rest_faults (_ ∷ fs) = fs

-- An action on the database that may fail with `E`.
abbrev pub Action : Type 0 → Type 0 → Type 0 → Type 0
Action S E A = World S → Result E A × World S

module _ {S E A : Type 0} where
  abbrev pub pure : A → Action S E A
  pure a w = (ok a, w)

  abbrev pub raise : E → Action S E A
  raise e w = (err e, w)

  abbrev pub settle : (SqlError → E) → Fault → A × S → S → Result E A × S
  settle tag deliver (a, s') s = (ok a, s')
  settle tag (refuse e) (a, s') s = (err (tag e), s)
  settle tag (lost e) (a, s') s = (err (tag e), s')

  -- One statement, `f`, under the next fault.
  unfoldable pub query : (SqlError → E) → (S → A × S) → Action S E A
  query tag f w =
      let (r, s) = settle tag (next_fault w.faults) (f w.db) w.db in
      (r, record { db = s; faults = rest_faults w.faults })

module _ {S E A B : Type 0} where
  abbrev pub resume : Result E A → (A → Action S E B) → World S → Result E B × World S
  resume (ok a) f w = f a w
  resume (err e) f w = (err e, w)

  infixl 5 ◌>>=◌ ◌>>◌
  abbrev pub ◌>>=◌ : Action S E A → (A → Action S E B) → Action S E B
  ◌>>=◌ m f w = let (r, w') = m w in resume r f w'

  abbrev pub ◌>>◌ : Action S E A → Action S E B → Action S E B
  m >> n = m >>= λ _. n
