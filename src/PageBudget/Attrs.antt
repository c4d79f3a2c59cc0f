-- ===== src/PageBudget/Attrs.antt =====
-- The scanner of pkg/pagebudget/pagebudget.go. An index into the raw bytes is the list of the bytes
-- from there on.
use doc_scraper.Prelude.{
  ℕ, zero, suc, ◌+◌, ◌/◌, Bool, true, false, ◌&&◌, ◌||◌, List, [], ◌∷◌, Option, none, some, length,
  drop, ltb, ◌==◌, if◌then◌else◌,
}
use doc_scraper.Prelude.Text.{Bytes}

-- `isSpace`: space, line feed, carriage return, tab, form feed.
unfoldable pub is_space : ℕ → Bool
is_space c = c == 32 || c == 10 || c == 13 || c == 9 || c == 12

-- `skipSpace`
unfoldable pub skip_space : Bytes → Bytes
unfolding is_space
skip_space [] = []
skip_space (c ∷ s) = if is_space c then skip_space s else c ∷ s

-- The first loop of `countAttrs`, over the tag's name.
unfoldable pub skip_name : Bytes → Bytes
unfolding is_space
skip_name [] = []
skip_name (c ∷ s) =
    let rest = skip_name s in
    if c == b'/' || c == b'>' then c ∷ s else if is_space c then s else rest

unfoldable pub ends_key : ℕ → Bool
unfolding is_space
ends_key c = c == b'=' || c == b'/' || c == b'>' || is_space c

-- The inner loop of `countAttrs`, over an attribute's name; the Bool is `i == start`.
unfoldable pub skip_key : Bool → Bytes → Bytes
unfolding ends_key
skip_key first [] = []
skip_key first (c ∷ s) =
    let rest = skip_key false s in
    if c == b'=' && first then rest else if ends_key c then c ∷ s else rest

-- The loop over a quoted value, up to one past the quote.
unfoldable pub skip_quoted : ℕ → Bytes → Bytes
skip_quoted q [] = []
skip_quoted q (c ∷ s) = if c == q then s else skip_quoted q s

-- The loop over a value without quotes.
unfoldable pub skip_unquoted : Bytes → Bytes
unfolding is_space
skip_unquoted [] = []
skip_unquoted (c ∷ s) = if c == b'>' || is_space c then c ∷ s else skip_unquoted s

-- The second `switch` of `skipAttrValue`; 39 and 34 are the quotes.
unfoldable pub skip_value : Bytes → Bytes
unfolding skip_quoted skip_unquoted
skip_value [] = []
skip_value (c ∷ s) =
    if c == b'>'
    then c ∷ s
    else if c == 39 || c == 34
    then skip_quoted c s
    else skip_unquoted (c ∷ s)

-- `skipAttrValue`
unfoldable pub skip_attr_value : Bytes → Bytes
unfolding skip_value skip_space
skip_attr_value [] = []
skip_attr_value (c ∷ s) =
    if c == b'/' then s else if c == b'=' then skip_value (skip_space s) else c ∷ s

-- One round of the main loop: the bytes after an attribute.
unfoldable pub next_attr : Bytes → Bytes
unfolding skip_key skip_attr_value
next_attr s = skip_space (skip_attr_value (skip_space (skip_key true s)))

-- `i > start`
unfoldable pub has_key : Bytes → Bool
unfolding skip_key
has_key s = ltb (length (skip_key true s)) (length s)

-- The main loop of `countAttrs`; `none` means that the fuel ran out.
unfoldable pub attrs_from : ℕ → ℕ → Bytes → Option ℕ
attrs_from zero n s = none
attrs_from (suc f) n [] = some n
attrs_from (suc f) n (c ∷ s) =
    let rest = attrs_from f (if has_key (c ∷ s) then n + 1 else n) (next_attr (c ∷ s)) in
    if c == b'>' then some n else rest

-- `countAttrs`; a round reads a byte at least, so the bytes are fuel enough.
unfoldable pub count_attrs : Bytes → Option ℕ
unfolding attrs_from
count_attrs raw = attrs_from (suc (length raw)) 0 (skip_space (skip_name (drop 1 raw)))

abbrev pub max_page_units : ℕ
max_page_units = 1500000

abbrev pub shared_budget_units : ℕ
shared_budget_units = 1600000

abbrev pub bytes_per_unit : ℕ
bytes_per_unit = 64

abbrev pub attrs_per_unit : ℕ
attrs_per_unit = 3

-- What the tokenizer of golang.org/x/net/html returns: tags with their raw bytes, and the rest.
pub data Token : Type 0 where
  start_tag self_closing_tag : Bytes → Token
  end_tag text_or_comment : Token

unfoldable pub or_zero : Option ℕ → ℕ
or_zero none = 0
or_zero (some n) = n

-- The loop of `weigh`, with `tags` and `attrs`.
unfoldable pub weigh_tokens : List Token → ℕ → ℕ → ℕ × ℕ
unfolding or_zero
weigh_tokens [] tags attrs = (tags, attrs)
weigh_tokens (start_tag raw ∷ ts) tags attrs =
    weigh_tokens ts (tags + 1) (attrs + or_zero (count_attrs raw))
weigh_tokens (self_closing_tag raw ∷ ts) tags attrs =
    weigh_tokens ts (tags + 1) (attrs + or_zero (count_attrs raw))
weigh_tokens (end_tag ∷ ts) tags attrs = weigh_tokens ts (tags + 1) attrs
weigh_tokens (text_or_comment ∷ ts) tags attrs = weigh_tokens ts tags attrs

-- `weigh`, given the tokenizer.
unfoldable pub weigh : (Bytes → List Token) → Bytes → ℕ
unfolding weigh_tokens
weigh tokenize body =
    let (tags, attrs) = weigh_tokens (tokenize body) 0 0 in
    tags + attrs / attrs_per_unit + length body / bytes_per_unit
