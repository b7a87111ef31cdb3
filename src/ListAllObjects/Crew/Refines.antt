-- ===== src/ListAllObjects/Crew/Refines.antt =====
-- The listing of one prefix as steps of a worker by itself.
pub mod Rounds
pub mod Spawn
use s3cpp.ListAllObjects.Worker.{write_objects}
use s3cpp.ListAllObjects.Crew.Alone.{
  own, here, next, quietly, again, Alone-trans, page, exception, Alone, Solo, at,
}
use s3cpp.Prelude.{
  subst, ℕ, zero, suc, ◌-◌, ◌≡◌, refl, inl, inr, true, false, Option, none, some, [], arith,
  Bool-cases, Option-cases, Text,
}
use s3cpp.S3.Types.{Object, CommonPrefix}
use s3cpp.ListAllObjects.Misc.{OutputFormat, ListObjectsApiVersion, Shared}
use s3cpp.ListAllObjects.Process.{
  ClientApi, Listing, listed, raised, Page, Ending, finished, skipped, out_of_fuel, failed,
  list_one, absorb, process_prefix,
}
use s3cpp.ListAllObjects.Crew.{
  Phase, listing, recording, checking, leaving, after_page, write, skip, fail, store,
}

-- Where a worker stands behind the listing of a prefix.
abbrev pub stands : CommonPrefix → ℕ → Ending → Option Phase
stands p d finished = some checking
stands p d skipped = some checking
stands p d out_of_fuel = some (listing p d)
stands p d (failed t) = some leaving

-- The token of a listing that the model's fuel did not bring to its end.
abbrev pub holds : Ending → Option Text → Option Text
holds out_of_fuel token = token
holds _ token = none

module _ (c : ClientApi) (bucket : Text) (version : ListObjectsApiVersion)
    (serialize : Object → Text) (format : OutputFormat) where
  open c use {Net}

  abbrev pub Goes : Solo c → Solo c → Type 0
  Goes = Alone c bucket version serialize format

  pub Goes-trans : {a b d : Solo c} → Goes a b → Goes b d → Goes a d
  Goes-trans = Alone-trans c bucket version serialize format

  module _ (p : CommonPrefix) (d : ℕ) (token : Option Text) (s : Shared) (net end : Net)
      (answer : Page)
      (e : list_one c bucket version p.prefix token net ≡ (listed answer, end)) where
    -- One page: written, then counted and queued.
    absorb-Goes :
        (t : Option Text)
        → answer.repeated ≡ false
        → answer.token ≡ t
        → Goes (at c (some (listing p d)) token s net) (
            at c
              (some (after_page p d t))
              t
              (absorb c bucket version serialize format d answer s)
              end)
    unfolding absorb
    absorb-Goes t fresh on =
        Goes-trans
          (next here (
            own (listing p d) (some (recording p d answer)) _ [] [] none end refl
              (write p d answer refl fresh refl refl refl refl)
              (page p d answer refl e fresh refl refl) refl))
          (subst
            (λ u.
              Goes
                (at c (some (recording p d answer)) none
                  (write_objects serialize format answer.contents s) end)
                (at c (some (after_page p d u)) u
                  (absorb c bucket version serialize format d answer s) end))
            on
            (quietly c bucket version serialize format (recording p d answer) _ none _ _ end [] _
              refl (store p d answer refl refl refl refl refl)))

  module _ (fuel : ℕ) (p : CommonPrefix) (d : ℕ) (token : Option Text) (s : Shared) (net end : Net)
      (page : Page) (e : list_one c bucket version p.prefix token net ≡ (listed page, end)) where
    process_prefix-repeated :
        page.repeated ≡ true
        → process_prefix c bucket version serialize format (suc fuel) p d token s net
          ≡ (skipped, s, end)
    unfolding process_prefix
    process_prefix-repeated r = ground arith

    process_prefix-none :
        page.repeated ≡ false
        → page.token ≡ none
        → process_prefix c bucket version serialize format (suc fuel) p d token s net
          ≡ (finished, absorb c bucket version serialize format d page s, end)
    unfolding process_prefix
    process_prefix-none fresh over = ground arith

    process_prefix-some :
        (t : Text)
        → page.repeated ≡ false
        → page.token ≡ some t
        → process_prefix c bucket version serialize format (suc fuel) p d token s net
          ≡ process_prefix c bucket version serialize format fuel p d
              (some t)
              (absorb c bucket version serialize format d page s)
              end
    unfolding process_prefix
    process_prefix-some t fresh on = ground arith

  abbrev Follows : CommonPrefix → ℕ → Option Text → Shared → Net → Ending × Shared × Net → Type 0
  Follows p d token s net (e, t, end) =
      (token' : Option Text) × Goes (at c (some (listing p d)) token s net)
        (at c (stands p d e) (holds e token') t end)

  pub process_prefix-Follows :
      (fuel : ℕ) (p : CommonPrefix) (d : ℕ) (token : Option Text) (s : Shared) (net : Net)
      → Follows p d token s net
          (process_prefix c bucket version serialize format fuel p d token s net)
  unfolding process_prefix
  process_prefix-Follows zero p d token s net = (token, here)
  process_prefix-Follows (suc fuel) p d token s net =
      by_answer (process_prefix-Follows fuel p d) (list_one c bucket version p.prefix token net)
        refl
    where
      by_answer :
          ((token : Option Text) (s : Shared) (net : Net)
            → Follows p d token s net
                (process_prefix c bucket version serialize format fuel p d token s net))
          → (answer : Listing Page × Net) → list_one c bucket version p.prefix token net ≡ answer
          → Follows p d token s net
              (process_prefix c bucket version serialize format (suc fuel) p d token s net)
      by_answer ih (raised t, end) e =
          rw (process_prefix, e, e)
            (
              none,
              next here (
                  own (listing p d) (some leaving) s [] [] none end refl
                    (fail p d refl refl refl refl refl) (exception p d t refl e refl refl) refl),
            )
      by_answer ih (listed answer, end) e = elim (Bool-cases answer.repeated) [
        | inl y ↦ rw (process_prefix-repeated fuel p d token s net end answer e y) (
          none,
          next here (
              own (listing p d) (some checking) s [] [] none end refl
                (skip p d refl refl refl refl refl) (again p d answer refl e y refl refl) refl),
        )
        | inr n ↦ elim (Option-cases answer.token) [
          | inl over ↦
              rw (process_prefix-none fuel p d token s net end answer e n over)
                (none, absorb-Goes p d token s net end answer e none n over)
          | inr (t, on) ↦
              let (token', r) =
                ih (some t) (absorb c bucket version serialize format d answer s) end in
              rw (process_prefix-some fuel p d token s net end answer e t n on)
                (token', Goes-trans (absorb-Goes p d token s net end answer e (some t) n on) r)
        ]
      ]
