-- ===== src/Llm/Durable/Nuls.antt =====
-- The sanitizers of crates/cja-llm/src/durable: `replace_nuls` (mod.rs), `json_has_nul`,
-- `sanitize_json_nuls` and `sanitize_tool_result` (worker.rs). A text is the list of its code
-- points. A JSON object is the list of its entries; where two keys come to be equal the later value
-- replaces the earlier.
use cja.Common.{
  ℕ, ◌≡◌, refl, Bool, true, false, ◌||◌, ◌&&◌, ◌==◌, List, [], ◌∷◌, arith, if◌then◌else◌,
}

abbrev pub Text : Type 0
Text = List ℕ

-- U+FFFD
abbrev pub replacement : ℕ
replacement = 65533

unfoldable pub has_nul : Text → Bool
has_nul [] = false
has_nul (c ∷ cs) = c == 0 || has_nul cs

unfoldable pub replace_all : Text → Text
replace_all [] = []
replace_all (c ∷ cs) = (if c == 0 then replacement else c) ∷ replace_all cs

-- `replace_nuls`
unfoldable pub replace_nuls : Text → Text
replace_nuls t = if has_nul t then replace_all t else t

unfoldable pub text_is : Text → Text → Bool
text_is [] [] = true
text_is (a ∷ s) (b ∷ t) = a == b && text_is s t
text_is _ _ = false

mutual
  pub data Json : Type 0 where
    null : Json
    bool : Bool → Json
    number : ℕ → Json
    string : Text → Json
    array : Items → Json
    object : Fields → Json

  pub data Items : Type 0 where
    no_items : Items
    item : Json → Items → Items

  pub data Fields : Type 0 where
    no_fields : Fields
    field : Text → Json → Fields → Fields

-- An insert into the map.
unfoldable pub put : Text → Json → Fields → Fields
put k v no_fields = field k v no_fields
put k v (field j w fs) =
    let rest = put k v fs in if text_is j k then field j v fs else field j w rest

unfoldable mutual
  -- `json_has_nul`
  pub json_has_nul : Json → Bool
  json_has_nul null = false
  json_has_nul (bool b) = false
  json_has_nul (number n) = false
  json_has_nul (string t) = has_nul t
  json_has_nul (array xs) = items_have_nul xs
  json_has_nul (object fs) = fields_have_nul fs

  pub items_have_nul : Items → Bool
  items_have_nul no_items = false
  items_have_nul (item v xs) = json_has_nul v || items_have_nul xs

  pub fields_have_nul : Fields → Bool
  fields_have_nul no_fields = false
  fields_have_nul (field k v fs) = has_nul k || (json_has_nul v || fields_have_nul fs)

unfoldable mutual
  -- `sanitize_json_nuls`
  pub sanitize_json_nuls : Json → Json
  sanitize_json_nuls null = null
  sanitize_json_nuls (bool b) = bool b
  sanitize_json_nuls (number n) = number n
  sanitize_json_nuls (string t) = string (replace_nuls t)
  sanitize_json_nuls (array xs) = array (sanitize_items xs)
  sanitize_json_nuls (object fs) = object (sanitize_fields fs no_fields)

  pub sanitize_items : Items → Items
  sanitize_items no_items = no_items
  sanitize_items (item v xs) = item (sanitize_json_nuls v) (sanitize_items xs)

  -- the entries, collected into a new map
  pub sanitize_fields : Fields → Fields → Fields
  sanitize_fields no_fields out = out
  sanitize_fields (field k v fs) out =
      sanitize_fields fs (put (replace_nuls k) (sanitize_json_nuls v) out)

-- The output of a tool: one text, one JSON block, or blocks that pass through.
pub data ToolOutput : Type 0 where
  text : Text → ToolOutput
  json : Json → ToolOutput
  blocks : ℕ → ToolOutput

-- `sanitize_tool_result`
unfoldable pub sanitize_tool_result : ToolOutput → ToolOutput
sanitize_tool_result (text t) = if has_nul t then text (replace_nuls t) else text t
sanitize_tool_result (json v) = if json_has_nul v then json (sanitize_json_nuls v) else json v
sanitize_tool_result (blocks b) = blocks b

has_nul-replace_all : (t : Text) → has_nul (replace_all t) ≡ false
unfolding has_nul replace_all
has_nul-replace_all [] = refl
has_nul-replace_all (c ∷ cs) = ground (arith, has_nul-replace_all cs)

has_nul-replace_nuls : (t : Text) → has_nul (replace_nuls t) ≡ false
unfolding replace_nuls
has_nul-replace_nuls t = ground (arith, has_nul-replace_all t)

fields_have_nul-put :
    (k : Text) (v : Json) (fs : Fields)
    → has_nul k ≡ false
    → json_has_nul v ≡ false
    → fields_have_nul fs ≡ false
    → fields_have_nul (put k v fs) ≡ false
unfolding put fields_have_nul
fields_have_nul-put k v no_fields a b c = rw (a, b) refl
fields_have_nul-put k v (field j w fs) a b c = ground (arith, fields_have_nul-put k v fs)

mutual
  unfolding json_has_nul sanitize_json_nuls

  sanitized : (v : Json) → json_has_nul (sanitize_json_nuls v) ≡ false
  sanitized null = refl
  sanitized (bool b) = refl
  sanitized (number n) = refl
  sanitized (string t) = has_nul-replace_nuls t
  sanitized (array xs) = items_sanitized xs
  sanitized (object fs) = fields_sanitized fs no_fields refl

  items_sanitized : (xs : Items) → items_have_nul (sanitize_items xs) ≡ false
  items_sanitized no_items = refl
  items_sanitized (item v xs) = ground (arith, sanitized v, items_sanitized xs)

  fields_sanitized :
      (fs out : Fields)
      → fields_have_nul out ≡ false
      → fields_have_nul (sanitize_fields fs out) ≡ false
  fields_sanitized no_fields out h = h
  fields_sanitized (field k v fs) out h =
      fields_sanitized fs (put (replace_nuls k) (sanitize_json_nuls v) out) (
        fields_have_nul-put (replace_nuls k) (sanitize_json_nuls v) out (has_nul-replace_nuls k)
          (sanitized v) h)

-- Whether a tool's output carries a U+0000; one of several blocks is not looked into.
unfoldable pub carries_nul : ToolOutput → Bool
carries_nul (text t) = has_nul t
carries_nul (json v) = json_has_nul v
carries_nul (blocks b) = false

-- The output that enters the run, if it is one text or one JSON value, has no U+0000 anywhere, in
-- keys and nested values too; and an output that had none enters as it is.
pub sanitize_tool_result_clean :
    (o : ToolOutput)
    → (carries_nul (sanitize_tool_result o) ≡ false)
      × (carries_nul o ≡ false → sanitize_tool_result o ≡ o)
unfolding sanitize_tool_result carries_nul
sanitize_tool_result_clean (text t) = (ground (arith, has_nul-replace_nuls t), λ h. rw h refl)
sanitize_tool_result_clean (json v) = (ground (arith, sanitized v), λ h. rw h refl)
sanitize_tool_result_clean (blocks b) = (refl, λ h. refl)
