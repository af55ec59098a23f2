-- ===== src/Llm/Durable/Status.antt =====
-- `RunStatus`, `FailReason` and their texts:
-- crates/cja-llm/src/durable/mod.rs.
use text.Mathlib.TextEquality.{eq_iff}
use cja.Common.{◌≡◌, ◌↔◌, refl, sym, ap, subst, ◌∙◌, Bool, true, false, String, if◌then◌else◌}
use cja.Common.Sql.{Result, ok, err, str_is}

pub data RunStatus : Type 0 where
  queued running waiting succeeded failed cancelled : RunStatus

-- `RunStatus::as_str`
unfoldable pub status_text : RunStatus → String
status_text queued = "queued"
status_text running = "running"
status_text waiting = "waiting"
status_text succeeded = "succeeded"
status_text failed = "failed"
status_text cancelled = "cancelled"

pub data ParseError : Type 0 where
  unknown_run_status unknown_fail_reason : ParseError

-- `RunStatus::from_str`
unfoldable pub parse_status : String → Result ParseError RunStatus
parse_status s =
    if str_is s "queued"
    then ok queued
    else if str_is s "running"
    then ok running
    else if str_is s "waiting"
    then ok waiting
    else if str_is s "succeeded"
    then ok succeeded
    else if str_is s "failed"
    then ok failed
    else if str_is s "cancelled"
    then ok cancelled
    else err unknown_run_status

pub data FailReason : Type 0 where
  turn_budget token_budget unknown_kind corrupt_state gateway protocol unstorable_content :
      FailReason

-- `FailReason::as_str`
unfoldable pub reason_text : FailReason → String
reason_text turn_budget = "turn_budget"
reason_text token_budget = "token_budget"
reason_text unknown_kind = "unknown_kind"
reason_text corrupt_state = "corrupt_state"
reason_text gateway = "gateway"
reason_text protocol = "protocol"
reason_text unstorable_content = "unstorable_content"

-- `FailReason::from_str`
unfoldable pub parse_reason : String → Result ParseError FailReason
parse_reason s =
    if str_is s "turn_budget"
    then ok turn_budget
    else if str_is s "token_budget"
    then ok token_budget
    else if str_is s "unknown_kind"
    then ok unknown_kind
    else if str_is s "corrupt_state"
    then ok corrupt_state
    else if str_is s "gateway"
    then ok gateway
    else if str_is s "protocol"
    then ok protocol
    else if str_is s "unstorable_content"
    then ok unstorable_content
    else err unknown_fail_reason

read_back : (s : RunStatus) → parse_status (status_text s) ≡ ok s
unfolding parse_status status_text
read_back queued = refl
read_back running = refl
read_back waiting = refl
read_back succeeded = refl
read_back failed = refl
read_back cancelled = refl

-- One test of a parser that goes through texts.
module _ {A : Type 0} (t : String) where
  passes :
      (b : Bool) (text : String) (a v : A) (rest : Result ParseError A) {P : Type 0}
      → str_is t text ≡ b
      → (if b then ok a else rest) ≡ ok v
      → (t ≡ text → a ≡ v → P)
      → (rest ≡ ok v → P)
      → P
  passes true text a v rest e h here later = here ((eq_iff t text).0 e) (cc)
  passes false text a v rest e h here later = later h

  found :
      (text : String) (a v : A) (rest : Result ParseError A) {P : Type 0}
      → (if str_is t text then ok a else rest) ≡ ok v
      → (t ≡ text → a ≡ v → P)
      → (rest ≡ ok v → P)
      → P
  found text a v rest h here later = passes (str_is t text) text a v rest refl h here later

module _ (t : String) where
  written : (s : RunStatus) → parse_status t ≡ ok s → status_text s ≡ t
  unfolding parse_status status_text
  written s h =
      let here =
        λ (a : RunStatus) (e : t ≡ status_text a) (k : a ≡ s). ap status_text (sym k) ∙ sym e in
      found t "queued" queued s _ h (here queued) (λ h.
        found t "running" running s _ h (here running) λ h.
          found t "waiting" waiting s _ h (here waiting) λ h.
            found t "succeeded" succeeded s _ h (here succeeded) λ h.
              found t "failed" failed s _ h (here failed) λ h.
                found t "cancelled" cancelled s (err unknown_run_status) h (here cancelled)
                  λ h. absurd (cc))

  reason_written : (r : FailReason) → parse_reason t ≡ ok r → reason_text r ≡ t
  unfolding parse_reason reason_text
  reason_written r h =
      let here =
        λ (a : FailReason) (e : t ≡ reason_text a) (k : a ≡ r). ap reason_text (sym k) ∙ sym e in
      found t "turn_budget" turn_budget r _ h (here turn_budget) (λ h.
        found t "token_budget" token_budget r _ h (here token_budget) λ h.
          found t "unknown_kind" unknown_kind r _ h (here unknown_kind) λ h.
            found t "corrupt_state" corrupt_state r _ h (here corrupt_state) λ h.
              found t "gateway" gateway r _ h (here gateway) λ h.
                found t "protocol" protocol r _ h (here protocol) λ h.
                  found t "unstorable_content" unstorable_content r (err unknown_fail_reason) h
                    (here unstorable_content) λ h. absurd (cc))

reason_read_back : (r : FailReason) → parse_reason (reason_text r) ≡ ok r
unfolding parse_reason reason_text
reason_read_back turn_budget = refl
reason_read_back token_budget = refl
reason_read_back unknown_kind = refl
reason_read_back corrupt_state = refl
reason_read_back gateway = refl
reason_read_back protocol = refl
reason_read_back unstorable_content = refl

-- A stored text is read as a status exactly if it is that status's text, and as a failure reason
-- exactly if it is that reason's text: what is written is read back, and nothing else is read.
pub texts_iff :
    (t : String)
    → ((s : RunStatus) → (parse_status t ≡ ok s) ↔ (status_text s ≡ t))
      × ((r : FailReason) → (parse_reason t ≡ ok r) ↔ (reason_text r ≡ t))
texts_iff t = (
  λ s. (written t s, λ e. subst (λ x. parse_status x ≡ ok s) e (read_back s)),
  λ r. (reason_written t r, λ e. subst (λ x. parse_reason x ≡ ok r) e (reason_read_back r)),
)
