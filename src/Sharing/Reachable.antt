-- ===== src/Sharing/Reachable.antt =====
-- What holds of the shared region after any interleaving of its processes' critical sections.
use mathlib.Core.Path.{subst}
use mem_sync.Base.{Bool-cases, ℕ, ◌^◌, ◌≤◌, ◌≡◌, ◌∙◌, inl, inr, true, some}
use mem_sync.Layout.{
  Region, valid_capacity, validate_ready_header, LockCalls, cache_initialize_region,
}
use mem_sync.Layout.Bounds.{FitsIn-valid_capacity, IsLaidOut, cache_validate_layout-IsLaidOut}
use mem_sync.Layout.Init.{
  cache_initialize_region_lem, cache_initialize_region-refused, validate_ready_header-attaches,
}
use mem_sync.Table.Invariant.{IsValid}
use mem_sync.Cache.Put.Total.{put_locked-Kept}
use mem_sync.Modify.Update.{update_locked-Updated}
use mem_sync.Modify.Delete.{delete_locked-Deleted}
use mem_sync.Cache.Get.Finish.{get_finish-Finishes}
use mem_sync.Contract.Access.{Kept-entry}
use mem_sync.Sharing.{Step, put, update, delete, finish, Reach, here, next}
use mem_sync.Sharing.Kept.{
  SameLayout, put_locked-SameLayout, update_locked-SameLayout, delete_locked-SameLayout,
  get_finish-SameLayout,
}

-- Well formed, and laid out for the size of the mapping.
pub record IsShared (lock_size size : ℕ) (r : Region) : Type 0 where
  pub valid : IsValid r
  pub laid_out : IsLaidOut lock_size size r

module _ (lock_size size : ℕ) where
  SameLayout-IsLaidOut :
      {r r' : Region} → SameLayout r r' → IsLaidOut lock_size size r → IsLaidOut lock_size size r'
  SameLayout-IsLaidOut s l = record {
    magic = s.magic ∙ l.magic;
    version = s.version ∙ l.version;
    fits = rw (s.capacity) l.fits;
    offset = s.offset ∙ l.offset;
  }

  -- Every critical section keeps the region well formed and laid out.
  pub Step-IsShared :
      {r r' : Region} → Step r r' → IsShared lock_size size r → IsShared lock_size size r'
  Step-IsShared (put r item calls ok) s = record {
    valid = (Kept-entry r item calls _ (put_locked-Kept item ok r calls s.valid).1).0;
    laid_out = SameLayout-IsLaidOut (put_locked-SameLayout r item calls) s.laid_out;
  }
  Step-IsShared (update r key value calls short string) s = record {
    valid = (update_locked-Updated r key value calls s.valid).valid;
    laid_out = SameLayout-IsLaidOut (update_locked-SameLayout r key value calls) s.laid_out;
  }
  Step-IsShared (delete r key) s = record {
    valid = (delete_locked-Deleted r key s.valid).valid;
    laid_out = SameLayout-IsLaidOut (delete_locked-SameLayout r key) s.laid_out;
  }
  Step-IsShared (finish r key out read calls) s = record {
    valid = (get_finish-Finishes r key out read calls s.valid).valid;
    laid_out = SameLayout-IsLaidOut (get_finish-SameLayout r key out read calls) s.laid_out;
  }

  pub Reach-IsShared :
      {r r' : Region} → IsShared lock_size size r → Reach r r' → IsShared lock_size size r'
  Reach-IsShared s here = s
  Reach-IsShared s (next reach step) = Step-IsShared step (Reach-IsShared s reach)

-- What a creator that returned true leaves behind.
published :
    (lock_size size capacity : ℕ) (before r : Region) (calls : LockCalls)
    → size ≤ 2 ^ 32
    → cache_initialize_region lock_size (some before) size capacity calls ≡ (some r, true)
    → IsShared lock_size size r
published lock_size size capacity before r calls small run =
    elim (Bool-cases (valid_capacity lock_size size capacity)) [
      | inr unfit ↦ cc (
        run,
        cache_initialize_region-refused lock_size size capacity before calls
            (λ f. cc (FitsIn-valid_capacity lock_size size capacity f, unfit)),
      )
      | inl fit ↦
          let (r₀, done, run₀, _, validates, _, valid, _) =
            cache_initialize_region_lem lock_size size capacity before calls fit small in
          let same : r₀ ≡ r = cc (run, run₀) in
          let true_done : done ≡ true = cc (run, run₀) in
          subst (IsShared lock_size size) same (record {
            valid = valid;
            laid_out = cache_validate_layout-IsLaidOut lock_size size r₀ (validates ∙ true_done);
          })
    ]

-- From a region that its creator published, of at most 4 GiB, every interleaving of critical sections
-- leads to a well-formed region, and a further process that gets the lock attaches to it.
pub published_region_stays-IsValid :
    (lock_size size capacity : ℕ) (before r r' : Region) (calls : LockCalls)
    → size ≤ 2 ^ 32
    → cache_initialize_region lock_size (some before) size capacity calls ≡ (some r, true)
    → Reach r r'
    → IsValid r' × (validate_ready_header lock_size (some r') size true ≡ true)
published_region_stays-IsValid lock_size size capacity before r r' calls small run reach =
    let s =
      Reach-IsShared lock_size size (published lock_size size capacity before r calls small run)
        reach in
    (s.valid, validate_ready_header-attaches lock_size size r' s.valid s.laid_out)
