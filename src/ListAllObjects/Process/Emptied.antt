-- ===== src/ListAllObjects/Process/Emptied.antt =====
-- Runs that list whole prefixes: what they leave behind, and how they join.
use s3cpp.Prelude.{
  ◌+◌, ◌%◌, ◌<◌, ◌≡◌, refl, List, [], ◌∷◌, ◌++◌, append_assoc, append-nil, arith, length,
  length-append, Text, Perm, sum_of-append, sum_of-Perm,
}
use mathlib.Core.List.Perm
use s3cpp.Std.Decimal.{size_max}
use s3cpp.S3.Types.{Object, CommonPrefix}
use s3cpp.ListAllObjects.Misc.{OutputFormat, Shared}
use s3cpp.ListAllObjects.Tree.{
  all_objects-nil, Bucket, IsTree, total, all_objects, all_objects-Perm, all_objects-append,
  all_objects-cons, objects_under_lem,
}
use s3cpp.ListAllObjects.Worker.{buffer}
use s3cpp.ListAllObjects.Worker.Accounting.{waiting, IsValid}
use s3cpp.ListAllObjects.Process.{Page}
use s3cpp.ListAllObjects.Process.Pages.{
  written, all_contents, all_prefixes, Absorbed, buffer-append,
}

-- Behind a run that lists these objects nothing waits, and the objects are written and counted.
pub record Emptied (serialize : Object → Text) (format : OutputFormat) (objects : List Object)
    (s t : Shared) : Type 0 where
  pub valid : IsValid t
  pub none_wait : waiting t ≡ []
  pub output : written t.write_stack ≡ written s.write_stack ++ buffer serialize format objects
  pub counted :
      t.metrics.total_objects_found % size_max
      ≡ (s.metrics.total_objects_found + length objects) % size_max

module _ (serialize : Object → Text) (format : OutputFormat) (b : Bucket) (tree : IsTree b) where
  pub Emptied-none :
      (s t : Shared)
      → IsValid t
      → waiting t ≡ []
      → t.write_stack ≡ s.write_stack
      → t.metrics.total_objects_found ≡ s.metrics.total_objects_found
      → Emptied serialize format [] s t
  unfolding buffer
  Emptied-none s t v e w n = record {
    valid = v;
    none_wait = e;
    output = rw (w, append-nil) refl;
    counted = omega arith;
  }

  pub no_objects : (s : Shared) → waiting s ≡ [] → Perm [] (all_objects b (waiting s))
  no_objects s e = rw (e, all_objects-nil b) (Perm.refl _)

  -- A prefix that has been listed and a run over what waits behind it make a run over what waited
  -- before.
  pub Emptied-step :
      (s t r u : Shared) (p : CommonPrefix) (pages : List Page) (objects : List Object)
      → Absorbed serialize format (all_contents pages) (all_prefixes pages) t r
      → Emptied serialize format objects r u
      → t.write_stack ≡ s.write_stack
      → t.metrics.total_objects_found ≡ s.metrics.total_objects_found
      → Emptied serialize format (all_contents pages ++ objects) s u
  Emptied-step s t r u p pages objects a m w n = record {
    valid = m.valid;
    none_wait = m.none_wait;
    output =
        rw (m.output, a.output, w, buffer-append serialize format (all_contents pages) objects)
          (append_assoc (written s.write_stack) _ _);
    counted = omega (arith, length-append (all_contents pages) objects, a.counted, m.counted, n);
  }

  -- The objects of a list of prefixes, one of which is taken out and replaced by those below it.
  pub all_objects-taken :
      (ps rest after : List CommonPrefix) (p : CommonPrefix) (pages : List Page)
      (objects : List Object)
      → Perm ps (p ∷ rest)
      → Perm after (all_prefixes pages ++ rest)
      → Perm (all_contents pages) (b.contents p)
      → Perm (all_prefixes pages) (b.below p)
      → Perm objects (all_objects b after)
      → Perm (all_contents pages ++ objects) (all_objects b ps)
  all_objects-taken ps rest after p pages objects taken queued contents below listed =
      let below_and_rest : Perm objects (all_objects b (b.below p) ++ all_objects b rest) =
        Perm.trans listed (
          Perm.trans (all_objects-Perm b queued) (
            rw (all_objects-append b (all_prefixes pages) rest)
              (Perm.append_right (all_objects b rest) (all_objects-Perm b below)))) in
      Perm.trans (Perm.append contents below_and_rest) (
        Perm.symm (
          Perm.trans (all_objects-Perm b taken) (
            rw (all_objects-cons b p rest, objects_under_lem b tree p, append_assoc (b.contents p))
              (Perm.refl _))))

  pub total-taken :
      (ps rest after : List CommonPrefix) (p : CommonPrefix) (pages : List Page)
      → Perm ps (p ∷ rest)
      → Perm after (all_prefixes pages ++ rest)
      → Perm (all_prefixes pages) (b.below p)
      → total b after < total b ps
  total-taken ps rest after p pages taken queued below = omega (
    arith,
    sum_of-Perm b.weight taken,
    sum_of-Perm b.weight queued,
    sum_of-Perm b.weight below,
    sum_of-append b.weight (all_prefixes pages) rest,
    tree.falls p,
  )
