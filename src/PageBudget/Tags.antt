-- ===== src/PageBudget/Tags.antt =====
-- The attribute count of well-formed start tags, written from a name and a list of attributes.
use doc_scraper.Prelude.{
  ℕ, zero, suc, ◌+◌, ◌<◌, ◌≤◌, ◌≡◌, ◌≢◌, ◌⊎◌, refl, true, false, ◌||◌, List, [], ◌∷◌, ◌++◌, some,
  length, arith, ◌==◌, inl, inr, ◌∙◌, ap, length-append,
}
use doc_scraper.Prelude.Text.{Bytes}
use doc_scraper.Prelude.Sort.{All}
use doc_scraper.PageBudget.Attrs.{
  is_space, skip_space, skip_name, ends_key, skip_key, skip_quoted, skip_unquoted, skip_value,
  skip_attr_value, next_attr, has_key, attrs_from, count_attrs,
}
use doc_scraper.PageBudget.Progress.{attrs_from_step}

-- A name alone, with a value in double quotes, or with a value without quotes.
pub data Attr : Type 0 where
  bare : Bytes → Attr
  quoted : Bytes → Bytes → Attr
  unquoted : Bytes → Bytes → Attr

abbrev pub attr_bytes : Attr → Bytes → Bytes
attr_bytes (bare k) t = k ++ t
attr_bytes (quoted k v) t = k ++ b'=' ∷ 34 ∷ (v ++ 34 ∷ t)
attr_bytes (unquoted k v) t = k ++ b'=' ∷ (v ++ t)

-- The attributes, each behind a space, and the end of the tag.
abbrev pub tail_bytes : List Attr → Bytes
tail_bytes [] = b'>' ∷ []
tail_bytes (a ∷ attrs) = 32 ∷ attr_bytes a (tail_bytes attrs)

abbrev pub tag_bytes : Bytes → List Attr → Bytes
tag_bytes name attrs = b'<' ∷ (name ++ tail_bytes attrs)

-- One character or more, none of which ends a name.
abbrev pub IsKey : Bytes → Type 0
IsKey k = (k ≢ []) × All (λ c. ends_key c ≡ false) k

abbrev pub IsPlain : Bytes → Type 0
IsPlain [] = ⊥
IsPlain (c ∷ v) =
    ((c == 39) ≡ false) × ((c == 34) ≡ false) × All (λ d. (d == b'>' || is_space d) ≡ false) (c ∷ v)

abbrev pub IsAttr : Attr → Type 0
IsAttr (bare k) = IsKey k
IsAttr (quoted k v) = IsKey k × All (λ c. (c == 34) ≡ false) v
IsAttr (unquoted k v) = IsKey k × IsPlain v

abbrev pub IsName : Bytes → Type 0
IsName = All (λ c. (c == b'/' || c == b'>' || is_space c) ≡ false)

module _ (x : ℕ) (t : Bytes) where
  skip_key-append :
      (k : Bytes)
      → All (λ c. ends_key c ≡ false) k
      → ends_key x ≡ true
      → skip_key false (k ++ x ∷ t) ≡ x ∷ t
  unfolding skip_key
  skip_key-append [] h e = ground arith
  skip_key-append (c ∷ k) h e = ground (arith, h.0, skip_key-append k h.1 e)

  first_key : (k : Bytes) → IsKey k → ends_key x ≡ true → skip_key true (k ++ x ∷ t) ≡ x ∷ t
  unfolding skip_key
  first_key [] h e = absurd (h.0 refl)
  first_key (c ∷ k) h e = ground (arith, h.1.0, skip_key-append k h.1.1 e)

  has_key-append : (k : Bytes) → IsKey k → ends_key x ≡ true → has_key (k ++ x ∷ t) ≡ true
  unfolding has_key
  has_key-append [] h e = absurd (h.0 refl)
  has_key-append (c ∷ k) h e =
      ground (arith, ap length (first_key (c ∷ k) h e), length-append k (x ∷ t))

  skip_unquoted-append :
      (v : Bytes)
      → All (λ c. (c == b'>' || is_space c) ≡ false) v
      → (x == b'>' || is_space x) ≡ true
      → skip_unquoted (v ++ x ∷ t) ≡ x ∷ t
  unfolding skip_unquoted
  skip_unquoted-append [] h e = rw e
  skip_unquoted-append (c ∷ v) h e = rw h.0 (skip_unquoted-append v h.1 e)

skip_quoted-append :
    (q : ℕ) (v t : Bytes) → All (λ c. (c == q) ≡ false) v → skip_quoted q (v ++ q ∷ t) ≡ t
unfolding skip_quoted
skip_quoted-append q [] t h = ground arith
skip_quoted-append q (c ∷ v) t h = rw h.0 (skip_quoted-append q v t h.1)

-- What stands behind an attribute: a space or the tag's end.
abbrev Stops : ℕ → Type 0
Stops x = (x ≡ 32) ⊎ (x ≡ b'>')

Stops-key : (x : ℕ) → Stops x → ends_key x ≡ true
unfolding ends_key
Stops-key x h = ground arith

Stops-value : (x : ℕ) → Stops x → (x == b'>' || is_space x) ≡ true
unfolding is_space
Stops-value x h = ground arith

-- Where no slash, equals sign or space is in front, there is no value to skip.
no_value :
    (c : ℕ) (s : Bytes)
    → (c == b'>') ≡ true ⊎ (ends_key c ≡ false)
    → (skip_attr_value (c ∷ s) ≡ c ∷ s) × (skip_space (c ∷ s) ≡ c ∷ s)
unfolding skip_attr_value skip_space ends_key
no_value c s h = ground arith

no_space : (c : ℕ) (s : Bytes) → ends_key c ≡ false → (is_space c ≡ false) × ((c == b'>') ≡ false)
unfolding ends_key
no_space c s h = ground arith

-- Every attribute begins with a character of its name.
attr_head :
    (a : Attr) (t : Bytes)
    → IsAttr a
    → (c : ℕ) × (s : Bytes) × (attr_bytes a t ≡ c ∷ s) × (ends_key c ≡ false)
attr_head (bare []) t h = absurd (h.0 refl)
attr_head (bare (c ∷ k)) t h = (c, k ++ t, refl, h.1.0)
attr_head (quoted [] v) t h = absurd (h.0.0 refl)
attr_head (quoted (c ∷ k) v) t h = (c, _, refl, h.0.1.0)
attr_head (unquoted [] v) t h = absurd (h.0.0 refl)
attr_head (unquoted (c ∷ k) v) t h = (c, _, refl, h.0.1.0)

-- The space in front of an attribute is skipped, and nothing more.
skip_space-attr :
    (a : Attr) (t : Bytes) → IsAttr a → skip_space (32 ∷ attr_bytes a t) ≡ attr_bytes a t
skip_space-attr a t h =
    let (c, s, e, k) = attr_head a t h in rw e (unfold skip_space in ground (arith, no_space c s k))

-- Past the spaces, no value is in front.
abbrev IsSettled : Bytes → Type 0
IsSettled t =
    (skip_attr_value (skip_space t) ≡ skip_space t) × (skip_space (skip_space t) ≡ skip_space t)

settled : (attrs : List Attr) → All IsAttr attrs → IsSettled (tail_bytes attrs)
settled [] h = (unfold skip_attr_value skip_space in refl, unfold skip_space in refl)
settled (a ∷ attrs) h =
    let (c, s, e, k) = attr_head a (tail_bytes attrs) h.0 in
    rw (skip_space-attr a (tail_bytes attrs) h.0, e) (no_value c s (inr k))

quoted_value :
    (v t : Bytes)
    → All (λ c. (c == 34) ≡ false) v
    → skip_attr_value (skip_space (b'=' ∷ 34 ∷ (v ++ 34 ∷ t))) ≡ t
unfolding skip_attr_value skip_space skip_value
quoted_value v t h = skip_quoted-append 34 v t h

unquoted_value :
    (v : Bytes) (x : ℕ) (t : Bytes)
    → IsPlain v
    → Stops x
    → skip_attr_value (skip_space (b'=' ∷ (v ++ x ∷ t))) ≡ x ∷ t
unfolding skip_attr_value skip_space skip_value
unquoted_value [] x t h e = absurd h
unquoted_value (c ∷ v) x t h e =
    ground (arith, h.0, h.1, h.2.0, skip_unquoted-append x t (c ∷ v) h.2 (Stops-value x e))

-- One round of the scanner goes past one attribute.
round :
    (a : Attr) (x : ℕ) (t : Bytes)
    → IsAttr a
    → Stops x
    → IsSettled (x ∷ t)
    → next_attr (attr_bytes a (x ∷ t)) ≡ skip_space (x ∷ t)
unfolding next_attr
round (bare k) x t h e q = rw (first_key x t k h (Stops-key x e), q.0) q.1
round (quoted k v) x t h e q =
    rw (first_key b'=' _ k h.0 (unfold ends_key in refl))
      (ap skip_space (quoted_value v (x ∷ t) h.1))
round (unquoted k v) x t h e q =
    rw (first_key b'=' _ k h.0 (unfold ends_key in refl))
      (ap skip_space (unquoted_value v x t h.1 e))

has_key-attr :
    (a : Attr) (x : ℕ) (t : Bytes) → IsAttr a → Stops x → has_key (attr_bytes a (x ∷ t)) ≡ true
has_key-attr (bare k) x t h e = has_key-append x t k h (Stops-key x e)
has_key-attr (quoted k v) x t h e = has_key-append b'=' _ k h.0 (unfold ends_key in refl)
has_key-attr (unquoted k v) x t h e = has_key-append b'=' _ k h.0 (unfold ends_key in refl)

tail_form : (attrs : List Attr) → (x : ℕ) × (t : Bytes) × (tail_bytes attrs ≡ x ∷ t) × Stops x
tail_form [] = (b'>', [], refl, inr refl)
tail_form (a ∷ attrs) = (32, _, refl, inl refl)

one_attr :
    (f n : ℕ) (a : Attr) (attrs : List Attr)
    → IsAttr a
    → All IsAttr attrs
    → attrs_from (suc f) n (attr_bytes a (tail_bytes attrs))
      ≡ attrs_from f (n + 1) (skip_space (tail_bytes attrs))
one_attr f n a attrs h hs =
    let (x, t, form, stop) = tail_form attrs in
    let (c, s, head, k) = attr_head a (tail_bytes attrs) h in
    let key : has_key (c ∷ s) ≡ true = rw (← head, form) (has_key-attr a x t h stop) in
    let past : next_attr (c ∷ s) ≡ skip_space (tail_bytes attrs) =
      rw (← head, form) (round a x t h stop (rw form at (settled attrs hs))) in
    rw (head, attrs_from_step f n c s (no_space c s k).1, key, past)

attrs_from-tail :
    (f n : ℕ) (attrs : List Attr)
    → length attrs < f
    → All IsAttr attrs
    → attrs_from f n (skip_space (tail_bytes attrs)) ≡ some (n + length attrs)
attrs_from-tail zero n attrs l h = absurd (omega arith)
attrs_from-tail (suc f) n [] l h = unfold attrs_from skip_space in ground arith
attrs_from-tail (suc f) n (a ∷ attrs) l h =
    rw (skip_space-attr a (tail_bytes attrs) h.0, one_attr f n a attrs h.0 h.1)
      (attrs_from-tail f (n + 1) attrs (omega arith) h.1 ∙ ap some (omega arith))

skip_name-tail :
    (name : Bytes) (attrs : List Attr)
    → IsName name
    → skip_space (skip_name (name ++ tail_bytes attrs)) ≡ skip_space (tail_bytes attrs)
unfolding skip_name skip_space
skip_name-tail [] [] h = refl
skip_name-tail [] (a ∷ attrs) h = refl
skip_name-tail (c ∷ name) attrs h = ground (arith, h.0, skip_name-tail name attrs h.1)

length-attr_bytes : (a : Attr) (t : Bytes) → length t ≤ length (attr_bytes a t)
length-attr_bytes (bare k) t = omega (arith, length-append k t)
length-attr_bytes (quoted k v) t =
    omega (arith, length-append k (b'=' ∷ 34 ∷ (v ++ 34 ∷ t)), length-append v (34 ∷ t))
length-attr_bytes (unquoted k v) t =
    omega (arith, length-append k (b'=' ∷ (v ++ t)), length-append v t)

length-tail_bytes : (attrs : List Attr) → length attrs ≤ length (tail_bytes attrs)
length-tail_bytes [] = omega arith
length-tail_bytes (a ∷ attrs) =
    omega (arith, length-tail_bytes attrs, length-attr_bytes a (tail_bytes attrs))

-- A start tag with a well-formed name and attributes counts one for each attribute, whichever of
-- the three forms each has.
pub count_attrs-tag_bytes :
    (name : Bytes) (attrs : List Attr)
    → IsName name
    → All IsAttr attrs
    → count_attrs (tag_bytes name attrs) ≡ some (length attrs)
unfolding count_attrs
count_attrs-tag_bytes name attrs n h = rw (skip_name-tail name attrs n) (
    attrs_from-tail (suc (length (tag_bytes name attrs))) 0 attrs
      (omega (arith, length-append name (tail_bytes attrs), length-tail_bytes attrs)) h
    ∙ ap some (omega arith))
