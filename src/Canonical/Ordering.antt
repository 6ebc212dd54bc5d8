-- ===== src/Canonical/Ordering.antt =====
-- internal/zero/canonical/writer.go: the order in which a map is visited does not matter.
use mxkeys_org.Prelude.{
  ◌≡◌, ◌∙◌, refl, sym, ap, ap₂, Bool, true, false, Option, none, some, List, [], ◌∷◌, ◌++◌,
  if◌then◌else◌, Text, arith, ◌≢◌, inl, inr, Bool-cases,
}
use mxkeys_org.Canonical.{
  Value, Values, Fields, array, object, no_values, value, no_fields, field, less, Entry,
  insert_entry, sort_entries, join_entries, braces, add_entry, add_value, map_option, write_value,
  write_array, entry_texts,
}

less_asym : (s t : Text) → less s t ≡ true → less t s ≡ false
unfolding less
less_asym [] [] h = refl
less_asym [] (d ∷ t) h = refl
less_asym (c ∷ s) [] h = absurd (ground (arith, h))
less_asym (c ∷ s) (d ∷ t) h = ground (arith, h, less_asym s t)

less_total : (s t : Text) → less s t ≡ false → less t s ≡ false → s ≡ t
unfolding less
less_total [] [] h g = refl
less_total [] (d ∷ t) h g = absurd (ground (arith, h))
less_total (c ∷ s) [] h g = absurd (ground (arith, g))
less_total (c ∷ s) (d ∷ t) h g =
    let heads : c ≡ d = ground (arith, h, g) in
    ap₂ (λ x y. x ∷ y) heads
      (less_total s t (ground (arith, h, g, heads)) (ground (arith, h, g, heads)))

less_trans : (s t u : Text) → less s t ≡ true → less t u ≡ true → less s u ≡ true
unfolding less
less_trans [] [] u h g = g
less_trans [] (d ∷ t) [] h g = g
less_trans [] (d ∷ t) (e ∷ u) h g = refl
less_trans (c ∷ s) [] u h g = absurd (ground (arith, h))
less_trans (c ∷ s) (d ∷ t) [] h g = absurd (ground (arith, g))
less_trans (c ∷ s) (d ∷ t) (e ∷ u) h g = ground (arith, h, g, less_trans s t u)

insert_before :
    (e f : Entry) (es : List Entry) → less f.0 e.0 ≡ false → insert_entry e (f ∷ es) ≡ e ∷ f ∷ es
unfolding insert_entry
insert_before e f es h = ap (λ b. if b then f ∷ insert_entry e es else e ∷ f ∷ es) h

insert_after :
    (e f : Entry) (es : List Entry)
    → less f.0 e.0 ≡ true
    → insert_entry e (f ∷ es) ≡ f ∷ insert_entry e es
unfolding insert_entry
insert_after e f es h = ap (λ b. if b then f ∷ insert_entry e es else e ∷ f ∷ es) h

-- Inserting two entries, the smaller one second.
insert_smaller :
    (e f : Entry) (es : List Entry)
    → less e.0 f.0 ≡ true
    → insert_entry e (insert_entry f es) ≡ insert_entry f (insert_entry e es)
unfolding insert_entry
insert_smaller e f [] h = insert_before e f [] (less_asym e.0 f.0 h) ∙ sym (insert_after f e [] h)
insert_smaller e f (g ∷ es) h = elim (Bool-cases (less g.0 f.0)) [
  | inl gf ↦ ap (insert_entry e) (insert_after f g es gf) ∙ elim (Bool-cases (less g.0 e.0)) [
    | inl ge ↦
        insert_after e g (insert_entry f es) ge
        ∙ ap (λ l. g ∷ l) (insert_smaller e f es h)
        ∙ sym
            (ap (insert_entry f) (insert_after e g es ge) ∙ insert_after f g (insert_entry e es) gf)
    | inr eg ↦
        insert_before e g (insert_entry f es) eg
        ∙ sym (
            ap (insert_entry f) (insert_before e g es eg)
            ∙ insert_after f e (g ∷ es) h
            ∙ ap (λ l. e ∷ l) (insert_after f g es gf))
  ]
  | inr fg ↦
      let eg : less g.0 e.0 ≡ false = elim (Bool-cases (less g.0 e.0)) [
        | inl ge ↦ absurd (ground (arith, less_trans g.0 e.0 f.0 ge h, fg))
        | inr eg ↦ eg
      ] in
      ap (insert_entry e) (insert_before f g es fg)
      ∙ insert_before e f (g ∷ es) (less_asym e.0 f.0 h)
      ∙ sym (
          ap (insert_entry f) (insert_before e g es eg)
          ∙ insert_after f e (g ∷ es) h
          ∙ ap (λ l. e ∷ l) (insert_before f g es fg))
]

insert_entry_comm :
    (e f : Entry) (es : List Entry)
    → e.0 ≢ f.0
    → insert_entry e (insert_entry f es) ≡ insert_entry f (insert_entry e es)
insert_entry_comm e f es differ = elim (Bool-cases (less e.0 f.0)) [
  | inl ef ↦ insert_smaller e f es ef
  | inr fe ↦ elim (Bool-cases (less f.0 e.0)) [
    | inl fe' ↦ sym (insert_smaller f e es fe')
    | inr ef' ↦ absurd (differ (less_total e.0 f.0 fe ef'))
  ]
]

-- One value, whatever the order in which the maps in it are visited.
mutual
  pub data SameValue : Value → Value → Type 0 where
    same : (v : Value) → SameValue v v
    same_array : {vs ws : Values} → SameValues vs ws → SameValue (array vs) (array ws)
    same_object : {fs gs : Fields} → SameFields fs gs → SameValue (object fs) (object gs)

  pub data SameValues : Values → Values → Type 0 where
    none_left : SameValues no_values no_values
    one_more :
        {v w : Value} {vs ws : Values}
        → SameValue v w
        → SameValues vs ws
        → SameValues (value v vs) (value w ws)

  pub data SameFields : Fields → Fields → Type 0 where
    ended : SameFields no_fields no_fields
    kept :
        (k : Text) {v w : Value} {fs gs : Fields}
        → SameValue v w
        → SameFields fs gs
        → SameFields (field k v fs) (field k w gs)
    swapped :
        (k j : Text) (v w : Value) (fs : Fields)
        → k ≢ j
        → SameFields (field k v (field j w fs)) (field j w (field k v fs))
    chained : {fs gs hs : Fields} → SameFields fs gs → SameFields gs hs → SameFields fs hs

abbrev sorted : Option (List Entry) → Option (List Entry)
sorted = map_option sort_entries

abbrev insert_optional : Text → Option Text → Option (List Entry) → Option (List Entry)
insert_optional k none es = none
insert_optional k (some t) none = none
insert_optional k (some t) (some es) = some (insert_entry (k, t) es)

sorted-add :
    (k : Text) (t : Option Text) (es : Option (List Entry))
    → sorted (add_entry k t es) ≡ insert_optional k t (sorted es)
unfolding sort_entries
sorted-add k none es = refl
sorted-add k (some t) none = refl
sorted-add k (some t) (some es) = refl

insert_optional_comm :
    (k j : Text) (t u : Option Text) (es : Option (List Entry))
    → k ≢ j
    → insert_optional k t (insert_optional j u es) ≡ insert_optional j u (insert_optional k t es)
insert_optional_comm k j none none es h = refl
insert_optional_comm k j none (some u) none h = refl
insert_optional_comm k j none (some u) (some es) h = refl
insert_optional_comm k j (some t) none none h = refl
insert_optional_comm k j (some t) none (some es) h = refl
insert_optional_comm k j (some t) (some u) none h = refl
insert_optional_comm k j (some t) (some u) (some es) h =
    ap some (insert_entry_comm (k, t) (j, u) es h)

abbrev in_braces : List Entry → Text
in_braces es = 123 ∷ (join_entries true es ++ 125 ∷ [])

braces-sorted : (o : Option (List Entry)) → map_option braces o ≡ map_option in_braces (sorted o)
braces-sorted none = refl
braces-sorted (some es) = refl

mutual
  unfolding write_value

  write-same : {v w : Value} → SameValue v w → write_value v ≡ write_value w
  write-same (same v) = refl
  write-same (same_array r) = ap (map_option (λ t. 91 ∷ (t ++ 93 ∷ []))) (write_array-same true r)
  write-same (same_object {fs} {gs} r) =
      braces-sorted (entry_texts fs)
      ∙ ap (map_option in_braces) (sorted-same r)
      ∙ sym (braces-sorted (entry_texts gs))

  write_array-same :
      (first : Bool) {vs ws : Values}
      → SameValues vs ws
      → write_array first vs ≡ write_array first ws
  write_array-same first none_left = refl
  write_array-same first (one_more r rs) =
      ap₂ (add_value first) (write-same r) (write_array-same false rs)

  sorted-same :
      {fs gs : Fields} → SameFields fs gs → sorted (entry_texts fs) ≡ sorted (entry_texts gs)
  sorted-same ended = refl
  sorted-same (kept k {v} {w} {fs} {gs} r rs) =
      sorted-add k (write_value v) (entry_texts fs)
      ∙ ap₂ (insert_optional k) (write-same r) (sorted-same rs)
      ∙ sym (sorted-add k (write_value w) (entry_texts gs))
  sorted-same (swapped k j v w fs differ) =
      sorted-add k (write_value v) (entry_texts (field j w fs))
      ∙ ap (insert_optional k (write_value v)) (sorted-add j (write_value w) (entry_texts fs))
      ∙ insert_optional_comm k j (write_value v) (write_value w) (sorted (entry_texts fs)) differ
      ∙ sym (ap (insert_optional j (write_value w)) (sorted-add k (write_value v) (entry_texts fs)))
      ∙ sym (sorted-add j (write_value w) (entry_texts (field k v fs)))
  sorted-same (chained r s) = sorted-same r ∙ sorted-same s

-- Values that differ at most in the order in which the maps in them, at any depth, are visited have the same
-- canonical JSON, or are refused both. Two entries of a map that change places have different keys.
pub write_value-SameValue : (v w : Value) → SameValue v w → write_value v ≡ write_value w
write_value-SameValue v w r = write-same r
