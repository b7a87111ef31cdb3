-- ===== src/ListAllObjects/Worker/Json.antt =====
-- worker.cpp: an object as a JSON object, its members the fields that are there.
use s3cpp.Prelude.{
  ℕ, ◌≡◌, refl, ◌∙◌, inl, inr, true, false, ◌&&◌, Option, none, some, List, [], ◌∷◌, arith, ◌==◌,
  if◌then◌else◌, Bool-cases, is_empty, All, Text, codes, text_eq, text_eq_refl, text_eq_sound,
}
use s3cpp.S3.Types.{
  Object, Owner, RestoreStatus, TimePoint, ChecksumAlgorithm, ChecksumType, StorageClass,
}

-- What the conversion calls of Boost.JSON: an empty object, the assignment to `json_obj[name]`, and
-- `value_from` for the types of an object's members.
pub record BoostJson : Type 1 where
  pub Value : Type 0
  pub JsonObject : Type 0
  pub empty_object : JsonObject
  pub assign : JsonObject → Text → Value → JsonObject
  pub find : JsonObject → Text → Option Value
  pub from_algorithm : ChecksumAlgorithm → Value
  pub from_type : ChecksumType → Value
  pub from_text : Text → Value
  pub from_time : TimePoint → Value
  pub from_owner : Owner → Value
  pub from_status : RestoreStatus → Value
  pub from_size : ℕ → Value
  pub from_class : StorageClass → Value

-- The documented behaviour: an assignment is found under its name, and under no other.
pub record IsBoostJson (j : BoostJson) : Type 0 where
  pub find-empty : (name : Text) → j.find j.empty_object name ≡ none
  pub find-assign :
      (o : j.JsonObject) (name other : Text) (v : j.Value)
      → j.find (j.assign o name v) other ≡ (if text_eq name other then some v else j.find o other)

-- `name_view.ends_with("_")`, and the name without it.
unfoldable pub strip : Text → Text
strip [] = []
strip (c ∷ name) = let rest = strip name in if is_empty name && (c == b'_') then [] else c ∷ rest

text_eq-comm_false : (s t : Text) → text_eq s t ≡ false → text_eq t s ≡ false
text_eq-comm_false s t e = elim (Bool-cases (text_eq t s)) [
  | inl y ↦ let same : text_eq s t ≡ true = rw (text_eq_sound t s y) (text_eq_refl s) in cc
  | inr n ↦ n
]

module _ (j : BoostJson) where
  open j use {
    Value, JsonObject, empty_object, assign, find, from_algorithm, from_type, from_text, from_time,
    from_owner, from_status, from_size, from_class,
  }

  abbrev mapped : {A : Type 0} → (A → Value) → Option A → Option Value
  mapped f none = none
  mapped f (some a) = some (f a)

  -- The members that `BOOST_DESCRIBE_STRUCT` lists, by name, with the value of each that is there.
  abbrev pub described_members : Object → List (Text × Option Value)
  described_members o =
      (codes "ChecksumAlgorithm_", mapped from_algorithm o.checksum_algorithm)
      ∷ (codes "ChecksumType_", mapped from_type o.checksum_type)
      ∷ (codes "ETag", mapped from_text o.etag)
      ∷ (codes "Key", mapped from_text o.key)
      ∷ (codes "LastModified", mapped from_time o.last_modified)
      ∷ (codes "Owner_", mapped from_owner o.owner)
      ∷ (codes "RestoreStatus_", mapped from_status o.restore_status)
      ∷ (codes "Size", mapped from_size o.size)
      ∷ (codes "StorageClass_", mapped from_class o.storage_class)
      ∷ []

  -- The loop: a member that is not there is left out.
  unfoldable pub add_members : List (Text × Option Value) → JsonObject → JsonObject
  add_members [] obj = obj
  add_members ((name, none) ∷ ms) obj = add_members ms obj
  add_members ((name, some v) ∷ ms) obj = add_members ms (assign obj (strip name) v)

  unfoldable pub object_json : Object → JsonObject
  object_json o = add_members (described_members o) empty_object

  module _ (laws : IsBoostJson j) where
    -- None of the members has this name.
    abbrev pub Unnamed : Text → List (Text × Option Value) → Type 0
    Unnamed name ms = All (λ m. text_eq (strip m.0) name ≡ false) ms

    find-add_members :
        (ms : List (Text × Option Value)) (obj : JsonObject) (name : Text)
        → Unnamed name ms
        → find (add_members ms obj) name ≡ find obj name
    unfolding add_members
    find-add_members [] obj name h = refl
    find-add_members ((other, none) ∷ ms) obj name (ne, h) = find-add_members ms obj name h
    find-add_members ((other, some v) ∷ ms) obj name (ne, h) =
        find-add_members ms (assign obj (strip other) v) name h
        ∙ (laws.find-assign obj (strip other) name v ∙ rw ne refl)

    -- Each member has the value that is found, and its name is that of no later one.
    abbrev pub Shown : JsonObject → List (Text × Option Value) → Type 0
    Shown obj ms = All (λ m. find obj (strip m.0) ≡ m.1) ms

    abbrev Distinct : List (Text × Option Value) → Type 0
    Distinct [] = Unit
    Distinct ((name, v) ∷ ms) = Unnamed (strip name) ms × Distinct ms

    assign-Unnamed :
        (ms : List (Text × Option Value)) (obj : JsonObject) (name : Text) (v : Value)
        → Unnamed name ms
        → All (λ m. find obj (strip m.0) ≡ none) ms
        → All (λ m. find (assign obj name v) (strip m.0) ≡ none) ms
    assign-Unnamed [] obj name v u h = tt
    assign-Unnamed ((other, o) ∷ ms) obj name v (ne, u) (e, h) = (
      laws.find-assign obj name (strip other) v ∙ rw (text_eq-comm_false (strip other) name ne) e,
      assign-Unnamed ms obj name v u h,
    )

    Shown-add_members :
        (ms : List (Text × Option Value)) (obj : JsonObject)
        → Distinct ms
        → All (λ m. find obj (strip m.0) ≡ none) ms
        → Shown (add_members ms obj) ms
    unfolding add_members
    Shown-add_members [] obj d h = tt
    Shown-add_members ((name, none) ∷ ms) obj (u, d) (e, h) =
        (find-add_members ms obj (strip name) u ∙ e, Shown-add_members ms obj d h)
    Shown-add_members ((name, some v) ∷ ms) obj (u, d) (e, h) = (
      find-add_members ms (assign obj (strip name) v) (strip name) u
          ∙ (laws.find-assign obj (strip name) (strip name) v
              ∙ rw (text_eq_refl (strip name)) refl),
      Shown-add_members ms (assign obj (strip name) v) d (assign-Unnamed ms obj (strip name) v u h),
    )

    none-empty :
        (ms : List (Text × Option Value)) → All (λ m. find empty_object (strip m.0) ≡ none) ms
    none-empty [] = tt
    none-empty (m ∷ ms) = (laws.find-empty (strip m.0), none-empty ms)

    -- The members of an object's JSON by the names of the S3 interface.
    abbrev pub json_members : Object → List (Text × Option Value)
    json_members o =
        (codes "ChecksumAlgorithm", mapped from_algorithm o.checksum_algorithm)
        ∷ (codes "ChecksumType", mapped from_type o.checksum_type)
        ∷ (codes "ETag", mapped from_text o.etag)
        ∷ (codes "Key", mapped from_text o.key)
        ∷ (codes "LastModified", mapped from_time o.last_modified)
        ∷ (codes "Owner", mapped from_owner o.owner)
        ∷ (codes "RestoreStatus", mapped from_status o.restore_status)
        ∷ (codes "Size", mapped from_size o.size)
        ∷ (codes "StorageClass", mapped from_class o.storage_class)
        ∷ []

    -- The JSON of an object has, under each of the nine names of the S3 interface, the value of
    -- that field if the field is there and nothing otherwise, and it has no member of another name.
    pub object_json-find :
        (o : Object)
        → All (λ m. find (object_json o) m.0 ≡ m.1) (json_members o)
          × ((name : Text)
              → All (λ m. text_eq m.0 name ≡ false) (json_members o)
              → find (object_json o) name ≡ none)
    unfolding object_json strip
    object_json-find o = (
      Shown-add_members (described_members o) empty_object (ground arith)
          (none-empty (described_members o)),
      λ name u. find-add_members (described_members o) empty_object name u ∙ laws.find-empty name,
    )
