-- ===== src/ListAllObjects/Crew/Refines/Rounds.antt =====
-- The rounds of the loop of `work`.
use s3cpp.Prelude.{ℕ, suc, ◌≡◌, refl, ◌||◌, none, some, if◌then◌else◌, Text}
use s3cpp.S3.Types.{Object, CommonPrefix}
use s3cpp.ListAllObjects.Misc.{OutputFormat, ListObjectsApiVersion, Shared}
use s3cpp.ListAllObjects.Worker.{is_done, should_terminate_early, get_next_prefix}
use s3cpp.ListAllObjects.Process.{
  ClientApi, Ending, finished, skipped, out_of_fuel, failed, process_prefix, work,
}

module _ (c : ClientApi) (bucket : Text) (version : ListObjectsApiVersion)
    (serialize : Object → Text) (format : OutputFormat) where
  open c use {Net}

  -- What `work` does behind the listing of a prefix, or the lack of one.
  abbrev pub next_round : ℕ → Ending × Shared × Net → Ending × Shared × Net
  next_round fuel (finished, t, end) =
      if is_done t || should_terminate_early t
      then (finished, t, end)
      else work c bucket version serialize format fuel t end
  next_round fuel (skipped, t, end) =
      if is_done t || should_terminate_early t
      then (finished, t, end)
      else work c bucket version serialize format fuel t end
  next_round fuel (out_of_fuel, t, end) = (out_of_fuel, t, end)
  next_round fuel (failed e, t, end) = (failed e, t, end)

  pub work-miss :
      (fuel : ℕ) (s t : Shared) (net : Net)
      → get_next_prefix s ≡ (none, t)
      → work c bucket version serialize format (suc fuel) s net ≡ next_round fuel (finished, t, net)
  unfolding work
  work-miss fuel s t net e = rw (work, e, e) refl

  pub work-fetch :
      (fuel : ℕ) (s t : Shared) (net : Net) (p : CommonPrefix) (d : ℕ)
      (done : Ending × Shared × Net)
      → get_next_prefix s ≡ (some (p, d), t)
      → process_prefix c bucket version serialize format fuel p d none t net ≡ done
      → work c bucket version serialize format (suc fuel) s net ≡ next_round fuel done
  unfolding work
  work-fetch fuel s t net p d (finished, r, end) e q = rw (work, e, e, q) refl
  work-fetch fuel s t net p d (skipped, r, end) e q = rw (work, e, e, q) refl
  work-fetch fuel s t net p d (out_of_fuel, r, end) e q = rw (work, e, e, q) refl
  work-fetch fuel s t net p d (failed x, r, end) e q = rw (work, e, e, q) refl
