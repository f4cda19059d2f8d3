-- ===== src/Services/Rabbitmq/Filter.antt =====
-- What `filterByKey` keeps of a section of RabbitMQ's definitions.
use infra_shelf.Common.{
  Bytes, Bool, true, false, ◌≡◌, sym, ap, ◌∙◌, arith, Bool-cases, inl, inr, ◌⊎◌, ◌↔◌,
}
use infra_shelf.Common.Text.{str_eq}
use infra_shelf.Json.{
  Json, Items, Fields, null, bool, num, text, array, object, nil, cons, get, as_text,
}
use infra_shelf.Services.Rabbitmq.{filter_items, filter_by_key}

abbrev pub IsItem : Json → Items → Type 0
IsItem j nil = ⊥
IsItem j (cons k ks) = (j ≡ k) ⊎ IsItem j ks

-- An item of a JSON array; another value has none.
abbrev pub IsItemOf : Json → Json → Type 0
IsItemOf j (array items) = IsItem j items
IsItemOf j _ = ⊥

-- The field of the object holds the value.
abbrev pub holds : Bytes → Bytes → Fields → Bool
holds key value m = str_eq (as_text (get key m)) value

-- What a filter keeps: the objects of `items` that hold the value, and nothing else.
abbrev Kept : Bytes → Bytes → Items → Items → Type 0
Kept key value items kept =
    (j : Json)
    → IsItem j kept
      ↔ (IsItem j items × ((m : Fields) × (j ≡ object m) × (holds key value m ≡ true)))

Kept-skip :
    (key value : Bytes) (k : Json) (items kept : Items)
    → ((m : Fields) → k ≡ object m → holds key value m ≡ false)
    → Kept key value items kept
    → Kept key value (cons k items) kept
Kept-skip key value k items kept skip rest j = (
  λ i. let (i', m) = (rest j).0 i in (inr i', m),
  λ (i, (m, q, holding)). elim i [
    | inl same ↦ absurd (ground (arith, skip m (sym same ∙ q)))
    | inr i' ↦ (rest j).1 (i', (m, q, holding))
  ],
)

Kept-take :
    (key value : Bytes) (m : Fields) (items kept : Items)
    → holds key value m ≡ true
    → Kept key value items kept
    → Kept key value (cons (object m) items) (cons (object m) kept)
Kept-take key value m items kept holding rest j = (
  λ i. elim i [
    | inl same ↦ (inl same, (m, same, holding))
    | inr i' ↦ let (here, found) = (rest j).0 i' in (inr here, found)
  ],
  λ (i, found). elim i [ inl same ↦ inl same | inr i' ↦ inr ((rest j).1 (i', found)) ],
)

object_inj : {m m' : Fields} → object m ≡ object m' → m ≡ m'
object_inj h = cc

filter_items_lem :
    (items : Items) (key value : Bytes) → Kept key value items (filter_items items key value)
unfolding filter_items
filter_items_lem nil key value = λ j. (λ i. absurd i, λ (i, found). absurd i)
filter_items_lem (cons (object m) rest) key value = elim (Bool-cases (holds key value m)) [
  | inl holding ↦ rw holding (
      Kept-take key value m rest (filter_items rest key value) holding
        (filter_items_lem rest key value))
  | inr other ↦ rw other (
      Kept-skip key value (object m) rest (filter_items rest key value)
        (λ m' q. ap (holds key value) (sym (object_inj q)) ∙ other)
        (filter_items_lem rest key value))
]
filter_items_lem (cons null rest) key value =
    Kept-skip key value null rest (filter_items rest key value) (λ m q. absurd (cc q))
      (filter_items_lem rest key value)
filter_items_lem (cons (bool b) rest) key value =
    Kept-skip key value (bool b) rest (filter_items rest key value) (λ m q. absurd (cc q))
      (filter_items_lem rest key value)
filter_items_lem (cons (num n) rest) key value =
    Kept-skip key value (num n) rest (filter_items rest key value) (λ m q. absurd (cc q))
      (filter_items_lem rest key value)
filter_items_lem (cons (text s) rest) key value =
    Kept-skip key value (text s) rest (filter_items rest key value) (λ m q. absurd (cc q))
      (filter_items_lem rest key value)
filter_items_lem (cons (array a) rest) key value =
    Kept-skip key value (array a) rest (filter_items rest key value) (λ m q. absurd (cc q))
      (filter_items_lem rest key value)

-- A value is an item of what `filterByKey` gives exactly when it is an item of the array that it
-- was given and an object whose field is the text that was asked for. Where the section is no
-- array, nothing is kept.
pub filter_by_key_iff :
    (section : Json) (key value : Bytes) (j : Json)
    → IsItem j (filter_by_key section key value)
      ↔ (IsItemOf j section × ((m : Fields) × (j ≡ object m) × (holds key value m ≡ true)))
unfolding filter_by_key
filter_by_key_iff (array items) key value j = filter_items_lem items key value j
filter_by_key_iff null key value j = (λ i. absurd i, λ (i, found). absurd i)
filter_by_key_iff (bool b) key value j = (λ i. absurd i, λ (i, found). absurd i)
filter_by_key_iff (num n) key value j = (λ i. absurd i, λ (i, found). absurd i)
filter_by_key_iff (text s) key value j = (λ i. absurd i, λ (i, found). absurd i)
filter_by_key_iff (object m) key value j = (λ i. absurd i, λ (i, found). absurd i)
