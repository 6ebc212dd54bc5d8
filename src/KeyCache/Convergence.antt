-- ===== src/KeyCache/Convergence.antt =====
-- internal/cluster/state.go: caches that received the same updates.
use mathlib.Core.List.{Memᴰ}
use mathlib.Core.List.Memᴰ
use mxkeys_org.Prelude.{
  ◌≤◌, Bool, true, false, Option, none, some, String, List, [], ◌∷◌, ◌&&◌, if◌then◌else◌, ◌≡◌, ◌↔◌,
  subst, sym, refl, ap, ◌∙◌, arith, Bool-cases, inl, inr, find, str_eq, eq_iff,
}
use mxkeys_org.KeyCache.{KeyEntry, Keys, replaces, apply_entry, get_cached_key}
use mxkeys_org.KeyCache.Register.{is_for, cached_after_update, both}

-- The updates in a list, the last one that came in at its head.
unfoldable pub apply_all : List KeyEntry → Keys → Keys
apply_all [] keys = keys
apply_all (e ∷ es) keys = (apply_entry e (apply_all es keys)).0

abbrev pub concerns : String → String → KeyEntry → Bool
concerns t j e = is_for e.server_name e.key_id t j

-- The latest of the updates of one key.
abbrev Latest : String → String → List KeyEntry → Option KeyEntry → Type 0
Latest t j es none = (e : KeyEntry) → Memᴰ e es → concerns t j e ≡ false
Latest t j es (some w) =
    Memᴰ w es
    × ((concerns t j w ≡ true)
        × ((e : KeyEntry) → Memᴰ e es → concerns t j e ≡ true → e.timestamp ≤ w.timestamp))

Latest-cons :
    (t j : String) (e : KeyEntry) (es : List KeyEntry) (g : Option KeyEntry)
    → Latest t j es g
    → Latest t j (e ∷ es) (if concerns t j e && replaces e g then some e else g)
Latest-cons t j e es none l = elim (Bool-cases (concerns t j e)) [
  | inl c ↦ rw c (
    Memᴰ.head refl,
    (
      c,
      λ x m p. elim (Memᴰ.cases_cons m) [
        | inl q ↦ rw q (omega arith)
        | inr m' ↦ absurd (ground (arith, l x m', p))
      ],
    ),
  )
  | inr c ↦ rw c (λ x m. elim (Memᴰ.cases_cons m) [ inl q ↦ rw q c | inr m' ↦ l x m' ])
]
Latest-cons t j e es (some w) l = elim (Bool-cases (concerns t j e && replaces e (some w))) [
  | inl c ↦ rw c (
    Memᴰ.head refl,
    (
      ground (arith, c),
      λ x m p. elim (Memᴰ.cases_cons m) [
        | inl q ↦ rw q (omega arith)
        | inr m' ↦ ground (arith, l.1.1 x m' p, c)
      ],
    ),
  )
  | inr c ↦ rw c (
    Memᴰ.tail l.0,
    (
      l.1.0,
      λ x m p. elim (Memᴰ.cases_cons m) [ inl q ↦ ground (arith, c, p, q) | inr m' ↦ l.1.1 x m' p ],
    ),
  )
]

empty-Latest : (t j : String) → Latest t j [] (get_cached_key t j [])
unfolding get_cached_key find
empty-Latest t j = λ e m. absurd (Memᴰ.not-nil m)

cached-Latest :
    (t j : String) (es : List KeyEntry) → Latest t j es (get_cached_key t j (apply_all es []))
unfolding apply_all
cached-Latest t j [] = empty-Latest t j
cached-Latest t j (e ∷ es) =
    subst (Latest t j (e ∷ es)) (sym (cached_after_update t j e (apply_all es [])))
      (Latest-cons t j e es (get_cached_key t j (apply_all es [])) (cached-Latest t j es))

-- No two updates of one key have one timestamp.
abbrev pub TimesDiffer : List KeyEntry → Type 0
TimesDiffer es =
    (e e' : KeyEntry)
    → Memᴰ e es
    → Memᴰ e' es
    → e.server_name ≡ e'.server_name
    → e.key_id ≡ e'.key_id
    → e.timestamp ≡ e'.timestamp
    → e ≡ e'

abbrev pub SameMembers : List KeyEntry → List KeyEntry → Type 0
SameMembers es es' = (e : KeyEntry) → Memᴰ e es ↔ Memᴰ e es'

concerns_one :
    (t j : String) (e e' : KeyEntry)
    → concerns t j e ≡ true
    → concerns t j e' ≡ true
    → (e.server_name ≡ e'.server_name) × (e.key_id ≡ e'.key_id)
concerns_one t j e e' c c' =
    let (a, b) = both (str_eq e.server_name t) (str_eq e.key_id j) c in
    let (a', b') = both (str_eq e'.server_name t) (str_eq e'.key_id j) c' in
    (
      (eq_iff e.server_name t).0 a ∙ sym ((eq_iff e'.server_name t).0 a'),
      (eq_iff e.key_id j).0 b ∙ sym ((eq_iff e'.key_id j).0 b'),
    )

Latest-unique :
    (t j : String) (es es' : List KeyEntry) (g g' : Option KeyEntry)
    → SameMembers es es'
    → TimesDiffer es
    → Latest t j es g
    → Latest t j es' g'
    → g ≡ g'
Latest-unique t j es es' none none same differ l l' = refl
Latest-unique t j es es' none (some w) same differ l l' =
    absurd (ground (arith, l w ((same w).1 l'.0), l'.1.0))
Latest-unique t j es es' (some w) none same differ l l' =
    absurd (ground (arith, l' w ((same w).0 l.0), l.1.0))
Latest-unique t j es es' (some w) (some w') same differ l l' =
    let (s, k) = concerns_one t j w w' l.1.0 l'.1.0 in
    let m' = (same w').1 l'.0 in
    let below : w.timestamp ≤ w'.timestamp = l'.1.1 w ((same w).0 l.0) l.1.0 in
    let above : w'.timestamp ≤ w.timestamp = l.1.1 w' m' l'.1.0 in
    ap some (differ w w' l.0 m' s k (omega (arith, below, above)))

-- Two empty caches that receive the same updates, in whatever order and each as often as it comes,
-- hold the same entry for every server and key, if no two different updates of one key have the
-- same timestamp.
pub same_updates_agree :
    (t j : String) (es es' : List KeyEntry)
    → SameMembers es es'
    → TimesDiffer es
    → get_cached_key t j (apply_all es []) ≡ get_cached_key t j (apply_all es' [])
same_updates_agree t j es es' same differ =
    Latest-unique t j es es' (get_cached_key t j (apply_all es []))
      (get_cached_key t j (apply_all es' [])) same differ (cached-Latest t j es)
      (cached-Latest t j es')

empty-cached : (t j : String) → get_cached_key t j [] ≡ none
unfolding get_cached_key find
empty-cached t j = refl

keeps_first :
    (t j : String) (first second : KeyEntry)
    → concerns t j first ≡ true
    → second.timestamp ≤ first.timestamp
    → get_cached_key t j (apply_all (second ∷ first ∷ []) []) ≡ some first
unfolding apply_all
keeps_first t j first second c late =
    rw
      (
        cached_after_update t j second (apply_entry first []).0,
        cached_after_update t j first [],
        empty-cached t j,
        c,
      )
      (ground (arith, late))

-- Of two updates of one key with the same timestamp a cache keeps the one that comes first, so two
-- caches that receive them in different orders hold different entries.
pub ties_keep_first :
    (e e' : KeyEntry)
    → e.server_name ≡ e'.server_name
    → e.key_id ≡ e'.key_id
    → e.timestamp ≡ e'.timestamp
    → (get_cached_key e.server_name e.key_id (apply_all (e' ∷ e ∷ []) []) ≡ some e)
      × (get_cached_key e.server_name e.key_id (apply_all (e ∷ e' ∷ []) []) ≡ some e')
ties_keep_first e e' s k time =
    let t = e.server_name in
    let j = e.key_id in
    let c : concerns t j e ≡ true = ground (arith, eq_iff t t, eq_iff j j) in
    let c' : concerns t j e' ≡ true =
      ground (arith, eq_iff e'.server_name t, eq_iff e'.key_id j, s, k) in
    (keeps_first t j e e' c (omega (arith, time)), keeps_first t j e' e c' (omega (arith, time)))
