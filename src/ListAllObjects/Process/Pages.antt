-- ===== src/ListAllObjects/Process/Pages.antt =====
-- The page loop of `process_prefix`: what it does with the pages that a server delivers.
use mathlib.Core.List.Perm
use s3cpp.Prelude.{
  ap, ◌∙◌, ℕ, zero, suc, ◌+◌, ◌%◌, ◌≤◌, ◌≡◌, refl, false, Option, none, some, List, [], ◌∷◌, ◌++◌,
  append_assoc, append-nil, arith, length, length-append, Text, Perm,
}
use s3cpp.S3.Types.{Object, CommonPrefix}
use s3cpp.ListAllObjects.Misc.{OutputFormat, ListObjectsApiVersion, Shared}
use s3cpp.Std.Decimal.{size_max}
use s3cpp.ListAllObjects.Worker.{line, buffer, push, write_objects}
use s3cpp.Std.SizeT.{plus}
use s3cpp.ListAllObjects.Worker.Accounting.{
  push-queue, record_page-objects, record_page-active, record_page-target, record_page-IsValid,
  waiting-record_page, waiting, IsValid,
}
use s3cpp.ListAllObjects.Process.{
  ClientApi, listed, Page, finished, list_one, absorb, process_prefix,
}

-- What the pages hold together.
abbrev pub all_contents : List Page → List Object
all_contents [] = []
all_contents (page ∷ pages) = page.contents ++ all_contents pages

abbrev pub all_prefixes : List Page → List CommonPrefix
all_prefixes [] = []
all_prefixes (page ∷ pages) = all_prefixes pages ++ page.prefixes

-- The texts of the write stack, the oldest first.
abbrev pub written : List Text → Text
written [] = []
written (t ∷ stack) = written stack ++ t

pub buffer-append :
    (serialize : Object → Text) (format : OutputFormat) (xs ys : List Object)
    → buffer serialize format (xs ++ ys) ≡ buffer serialize format xs ++ buffer serialize format ys
unfolding buffer
buffer-append serialize format [] ys = refl
buffer-append serialize format (x ∷ xs) ys =
    rw (buffer-append serialize format xs ys, append_assoc (line serialize format x))

written-push : (t : Text) (s : Shared) → written (push t s).write_stack ≡ written s.write_stack ++ t
unfolding push
written-push [] s = rw append-nil
written-push (c ∷ t) s = refl

-- What lies behind pages with these objects and prefixes: the state is valid, the objects are
-- written and counted, the prefixes wait besides those that did, and the workers are as many as
-- before.
pub record Absorbed (serialize : Object → Text) (format : OutputFormat) (objects : List Object)
    (prefixes : List CommonPrefix) (s t : Shared) : Type 0 where
  pub valid : IsValid t
  pub output : written t.write_stack ≡ written s.write_stack ++ buffer serialize format objects
  pub counted :
      t.metrics.total_objects_found % size_max
      ≡ (s.metrics.total_objects_found + length objects) % size_max
  pub queued : Perm (waiting t) (prefixes ++ waiting s)
  pub active : t.metrics.active_workers ≡ s.metrics.active_workers
  pub target : t.metrics.target_workers ≡ s.metrics.target_workers

Absorbed-none :
    (serialize : Object → Text) (format : OutputFormat) (s : Shared)
    → IsValid s
    → Absorbed serialize format [] [] s s
unfolding buffer
Absorbed-none serialize format s v = record {
  valid = v;
  output = rw append-nil;
  counted = omega arith;
  queued = Perm.refl _;
  active = refl;
  target = refl;
}

Absorbed-trans :
    (serialize : Object → Text) (format : OutputFormat) (xs ys : List Object)
    (ps qs : List CommonPrefix) (s t r : Shared)
    → Absorbed serialize format xs ps s t
    → Absorbed serialize format ys qs t r
    → Absorbed serialize format (xs ++ ys) (qs ++ ps) s r
Absorbed-trans serialize format xs ys ps qs s t r a b = record {
  valid = b.valid;
  output =
      rw (b.output, a.output, buffer-append serialize format xs ys)
        (append_assoc (written s.write_stack) _ _);
  counted = omega (arith, length-append xs ys, a.counted, b.counted);
  queued = rw (append_assoc qs ps (waiting s)) (Perm.trans b.queued (Perm.append_left qs a.queued));
  active = b.active ∙ a.active;
  target = b.target ∙ a.target;
}

module _ (c : ClientApi) (bucket : Text) (version : ListObjectsApiVersion) where
  open c use {Net}

  -- The server delivers these pages for a prefix, the last with no token for a next one, and none
  -- with the token that it was asked by.
  abbrev pub Delivers : Option Text → Option Text → Net → List Page → Net → Type 0
  Delivers prefix token net [] end = ⊥
  Delivers prefix token net (page ∷ []) end =
      (list_one c bucket version prefix token net ≡ (listed page, end))
      × (page.repeated ≡ false)
      × (page.token ≡ none)
  Delivers prefix token net (page ∷ next ∷ pages) end =
      (t : Text) × (net' : Net) × (list_one c bucket version prefix token net ≡ (listed page, net'))
      × (page.repeated ≡ false)
      × (page.token ≡ some t)
      × Delivers prefix (some t) net' (next ∷ pages) end

module _ (c : ClientApi) (bucket : Text) (version : ListObjectsApiVersion)
    (serialize : Object → Text) (format : OutputFormat) where
  open c use {Net}

  absorb_all : ℕ → List Page → Shared → Shared
  absorb_all depth [] s = s
  absorb_all depth (page ∷ pages) s =
      absorb_all depth pages (absorb c bucket version serialize format depth page s)

  process_prefix-Delivers :
      (prefix : CommonPrefix) (depth : ℕ) (pages : List Page) (fuel : ℕ) (token : Option Text)
      (s : Shared) (net end : Net)
      → length pages ≤ fuel
      → Delivers c bucket version prefix.prefix token net pages end
      → process_prefix c bucket version serialize format fuel prefix depth token s net
        ≡ (finished, absorb_all depth pages s, end)
  unfolding process_prefix absorb_all
  process_prefix-Delivers prefix depth [] fuel token s net end h d = absurd d
  process_prefix-Delivers prefix depth (page ∷ []) zero token s net end h d = absurd (omega arith)
  process_prefix-Delivers prefix depth (page ∷ []) (suc fuel) token s net end h (e, fresh, over) =
      ground arith
  process_prefix-Delivers prefix depth (page ∷ q ∷ pages) zero token s net end h d =
      absurd (omega arith)
  process_prefix-Delivers prefix depth (page ∷ q ∷ pages) (suc fuel) token s net end h
        (t, net', e, fresh, on, rest) =
      ground (
        arith,
        process_prefix-Delivers prefix depth (q ∷ pages) fuel (some t)
            (absorb c bucket version serialize format depth page s) net' end,
      )

  absorb-Absorbed :
      (depth : ℕ) (page : Page) (s : Shared)
      → IsValid s
      → Absorbed serialize format page.contents page.prefixes s
          (absorb c bucket version serialize format depth page s)
  unfolding absorb write_objects push plus
  absorb-Absorbed depth page s v =
      let text = buffer serialize format page.contents in
      let (q, m) = push-queue text s in
      let (count, stack) = record_page-objects depth page.contents page.prefixes (push text s) in
      record {
        valid =
            record_page-IsValid depth page.contents page.prefixes (push text s)
              (record { counted = rw (q, m) v.counted; sorted = rw q v.sorted });
        output = rw stack (written-push text s);
        counted = rw (count, m) (omega arith);
        queued = rw q at (waiting-record_page depth page.contents page.prefixes (push text s));
        active =
            record_page-active depth page.contents page.prefixes (push text s)
            ∙ ap (λ n. n.active_workers) m;
        target =
            record_page-target depth page.contents page.prefixes (push text s)
            ∙ ap (λ n. n.target_workers) m;
      }

  absorb_all-Absorbed :
      (depth : ℕ) (pages : List Page) (s : Shared)
      → IsValid s
      → Absorbed serialize format
          (all_contents pages)
          (all_prefixes pages)
          s
          (absorb_all depth pages s)
  unfolding absorb_all
  absorb_all-Absorbed depth [] s v = Absorbed-none serialize format s v
  absorb_all-Absorbed depth (page ∷ pages) s v =
      let one = absorb-Absorbed depth page s v in
      Absorbed-trans serialize format page.contents (all_contents pages) page.prefixes
        (all_prefixes pages) s _ _ one (absorb_all-Absorbed depth pages _ one.valid)

  -- If the server delivers a finite run of pages for a prefix, the last without a token for a next
  -- page, and the fuel is no less than their number, then `process_prefix` finishes behind the last
  -- of them: every object is written, in order, behind what was written, and counted; every prefix
  -- waits in the queue besides those that did; the workers are as many as before; and the state is
  -- valid.
  pub process_prefix_complete :
      (prefix : CommonPrefix) (depth : ℕ) (pages : List Page) (fuel : ℕ) (token : Option Text)
      (s : Shared) (net end : Net)
      → IsValid s
      → length pages ≤ fuel
      → Delivers c bucket version prefix.prefix token net pages end
      → (t : Shared) × (process_prefix c bucket version serialize format fuel prefix depth token s
            net
          ≡ (finished, t, end))
        × Absorbed serialize format (all_contents pages) (all_prefixes pages) s t
  process_prefix_complete prefix depth pages fuel token s net end v h d = (
    absorb_all depth pages s,
    process_prefix-Delivers prefix depth pages fuel token s net end h d,
    absorb_all-Absorbed depth pages s v,
  )
