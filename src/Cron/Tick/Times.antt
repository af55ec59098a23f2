-- ===== src/Cron/Tick/Times.antt =====
-- The times of fires and of fire receipts (crates/cja/src/cron/registry.rs).
use cja.Common.{
  ℕ, ◌+◌, ◌≤◌, ◌<◌, ◌≡◌, refl, ◌∙◌, ap, Bool, true, false, String, List, [], ◌∷◌, ◌++◌, arith,
  if◌then◌else◌,
}
use cja.Common.Sql.{str_is}
use cja.Cron.Tick.{Event, enqueuing_task, callback_ran}

-- The receipts of a cron among the events, by the database's time of their claims.
abbrev pub receipt_times : String → List Event → List ℕ
receipt_times name [] = []
receipt_times name (enqueuing_task task_name last at ∷ events) =
    let times = receipt_times name events in if str_is task_name name then at ∷ times else times
receipt_times name (callback_ran ∷ events) = receipt_times name events

receipt_times-cons :
    (b : Bool) (at : ℕ) (xs ys : List ℕ)
    → (if b then at ∷ (xs ++ ys) else xs ++ ys) ≡ (if b then at ∷ xs else xs) ++ ys
receipt_times-cons true at xs ys = refl
receipt_times-cons false at xs ys = refl

pub receipt_times-append :
    (name : String) (e f : List Event)
    → receipt_times name (e ++ f) ≡ receipt_times name e ++ receipt_times name f
receipt_times-append name [] f = refl
receipt_times-append name (enqueuing_task n last at ∷ e) f =
    ap (λ ts. if str_is n name then at ∷ ts else ts) (receipt_times-append name e f)
    ∙ receipt_times-cons (str_is n name) at (receipt_times name e) (receipt_times name f)
receipt_times-append name (callback_ran ∷ e) f = receipt_times-append name e f

-- The last of the times, after a first one.
abbrev pub latest : ℕ → List ℕ → ℕ
latest l [] = l
latest l (t ∷ ts) = latest t ts

-- Each time is later than the one before it by more than `d`.
abbrev pub AreApart : ℕ → ℕ → List ℕ → Type 0
AreApart d l [] = Unit
AreApart d l (t ∷ ts) = (l + d < t) × AreApart d t ts

-- A list with some of its elements left out.
pub data Within : List ℕ → List ℕ → Type 0 where
  none_of : Within [] []
  leaves : {x : ℕ} {xs ys : List ℕ} → Within xs ys → Within xs (x ∷ ys)
  keeps : {x : ℕ} {xs ys : List ℕ} → Within xs ys → Within (x ∷ xs) (x ∷ ys)

pub Within-append :
    {xs ys vs ws : List ℕ} → Within xs ys → Within vs ws → Within (xs ++ vs) (ys ++ ws)
Within-append none_of k = k
Within-append (leaves h) k = leaves (Within-append h k)
Within-append (keeps h) k = keeps (Within-append h k)

pub latest-append : (l : ℕ) (xs ys : List ℕ) → latest l (xs ++ ys) ≡ latest (latest l xs) ys
latest-append l [] ys = refl
latest-append l (x ∷ xs) ys = latest-append x xs ys

pub AreApart-append :
    (d l : ℕ) (xs ys : List ℕ)
    → AreApart d l xs
    → AreApart d (latest l xs) ys
    → AreApart d l (xs ++ ys)
AreApart-append d l [] ys h k = k
AreApart-append d l (x ∷ xs) ys h k = (h.0, AreApart-append d x xs ys h.1 k)

AreApart-sooner : (d l m : ℕ) (xs : List ℕ) → l ≤ m → AreApart d m xs → AreApart d l xs
AreApart-sooner d l m [] h k = tt
AreApart-sooner d l m (x ∷ xs) h k = (omega (arith, k.0), k.1)

-- Times with some left out are still apart.
pub Within-AreApart : (d l : ℕ) {xs ys : List ℕ} → Within xs ys → AreApart d l ys → AreApart d l xs
Within-AreApart d l none_of k = tt
Within-AreApart d l (leaves {x} {xs} h) k =
    AreApart-sooner d l x xs (omega (arith, k.0)) (Within-AreApart d x h k.1)
Within-AreApart d l (keeps {x} h) k = (k.0, Within-AreApart d x h k.1)
