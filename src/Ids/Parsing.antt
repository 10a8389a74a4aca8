-- ===== src/Ids/Parsing.antt =====
-- crates/hier-kv-gateway-core/src/ids.rs: the text of a backend's identifier, and its parser.
use Prim.Native.Char.{Char, code}
use Prim.Native.String.append
use text.Mathlib.TextEquality.{Char-path}
use Prim.Native.String.{◌∷◌ as put, [] as empty, ◌++◌ as ◌followed_by◌}
use hier_kv_gateway.Prelude.{
  ℕ, ◌≡◌, ◌↔◌, refl, sym, ap, ◌∙◌, ◌≢◌, Bool, true, false, Option, none, some, String,
  if◌then◌else◌, ◌==◌, ◌||◌, ℕ_discrete, Option-cases, inl, inr, arith,
}
use hier_kv_gateway.Ids.{BackendId}

-- The code of `/`.
abbrev pub slash : ℕ
slash = 47

abbrev slash_char : Char
slash_char = "/"

abbrev pub is_blank : String → Bool
is_blank empty = true
is_blank (put c s) = false

-- The texts before and after the first `/`.
unfoldable pub split_at_slash : String → Option (String × String)
split_at_slash empty = none
split_at_slash (put c s) =
    let rest = split_at_slash s in
    if code c == slash
    then some (empty, s)
    else elim rest [ none ↦ none | some r ↦ some (put c r.0, r.1) ]

unfoldable pub parse : String → Option BackendId
unfolding split_at_slash
parse s = elim (split_at_slash s) [
  | none ↦ none
  | some r ↦
      if is_blank r.0 || is_blank r.1
      then none
      else some (record { region = record { name = r.0 }; instance_id = record { name = r.1 } })
]

abbrev joined : String → String → String
joined region instance = region followed_by ("/" followed_by instance)

-- `Display`
unfoldable pub display : BackendId → String
display b = joined b.region.name b.instance_id.name

unfoldable pub HasNoSlash : String → Type 0
HasNoSlash empty = Unit
HasNoSlash (put c s) = (code c ≢ slash) × HasNoSlash s

joined-nil : (t : String) → joined empty t ≡ put slash_char t
joined-nil t =
    append.nil ("/" followed_by t)
    ∙ (append.cons slash_char empty t ∙ ap (put slash_char) (append.nil t))

split_at_slash-joined : (a t : String) → HasNoSlash a → split_at_slash (joined a t) ≡ some (a, t)
unfolding split_at_slash HasNoSlash
split_at_slash-joined empty t h = rw (joined-nil t) refl
split_at_slash-joined (put c a) t (n, h) =
    rw (append.cons c a ("/" followed_by t)) (ground (arith, n, split_at_slash-joined a t h))

joined-split_at_slash :
    (s a t : String) → split_at_slash s ≡ some (a, t) → (joined a t ≡ s) × HasNoSlash a
unfolding split_at_slash HasNoSlash
joined-split_at_slash empty a t e = ground (arith, e)
joined-split_at_slash (put c s) a t e = elim (ℕ_discrete (code c) slash) [
  | yes p ↦
      let (x, y) : (a ≡ empty) × (t ≡ s) = ground (arith, e, p) in
      rw (x, y, joined-nil s) (ap (λ d. put d s) (sym (Char-path c slash_char p)), tt)
  | no n ↦ elim (Option-cases (split_at_slash s)) [
    | inl z ↦ absurd (ground (arith, e, n, z))
    | inr w ↦
        let (l, h) = joined-split_at_slash s w.0.0 w.0.1 w.1 in
        let (x, y) : (a ≡ put c w.0.0) × (t ≡ w.0.1) = ground (arith, e, n, w.1) in
        rw (x, y, append.cons c w.0.0 ("/" followed_by w.0.1)) (ap (put c) l, (n, h))
  ]
]

-- The two parts of an identifier make it, if both are there.
abbrev made : String × String → Option BackendId
made r =
    if is_blank r.0 || is_blank r.1
    then none
    else some (record { region = record { name = r.0 }; instance_id = record { name = r.1 } })

made-some :
    (r : String × String) (b : BackendId)
    → made r ≡ some b
    → (b.region.name ≡ r.0)
      × (b.instance_id.name ≡ r.1)
      × (is_blank r.0 ≡ false)
      × (is_blank r.1 ≡ false)
made-some r b e = ground (arith, e)

-- A text is parsed as an identifier exactly if it is the text that the identifier is displayed as,
-- the region has no `/`, and neither part is empty.
pub parse_iff :
    (s : String) (b : BackendId)
    → (parse s ≡ some b) ↔ (
        (display b ≡ s)
        × HasNoSlash b.region.name
        × (is_blank b.region.name ≡ false)
        × (is_blank b.instance_id.name ≡ false))
unfolding parse display
parse_iff s b = (parsed, displayed)
  where
    parsed :
        parse s ≡ some b
        → (display b ≡ s)
          × HasNoSlash b.region.name
          × (is_blank b.region.name ≡ false)
          × (is_blank b.instance_id.name ≡ false)
    parsed e = elim (Option-cases (split_at_slash s)) [
      | inl z ↦ absurd (ground (arith, e, z))
      | inr w ↦
          let made_b : made w.0 ≡ some b = ground (arith, e, w.1) in
          let (x, y, u, v) = made-some w.0 b made_b in
          let (l, h) = joined-split_at_slash s w.0.0 w.0.1 w.1 in rw (x, y) (l, h, u, v)
    ]

    displayed :
        (display b ≡ s)
          × HasNoSlash b.region.name
          × (is_blank b.region.name ≡ false)
          × (is_blank b.instance_id.name ≡ false)
        → parse s ≡ some b
    displayed (l, h, u, v) =
        let split : split_at_slash s ≡ some (b.region.name, b.instance_id.name) =
          rw (sym l) (split_at_slash-joined b.region.name b.instance_id.name h) in
        ground (arith, split, u, v)
