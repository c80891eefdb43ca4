-- ===== src/Agent/Once.antt =====
-- The RPCs that the agent hands to its retrier.
use rediver_sdk_go.Prelude.{◌≡◌, refl, ap, inl, inr, true, Bool-cases, not, String, Option, none}
use rediver_sdk_go.Errors.{Error, is_nil}
use rediver_sdk_go.Retry.Wrapped.{IsWrapped, do_retry-wrapped}
use rediver_sdk_go.Import.{retried}
use rediver_sdk_go.Job.Message.{JobDetail}
use rediver_sdk_go.Agent.Rpc.{Rpc, World, get_job_detail, call_rpc, push}
use rediver_sdk_go.Agent.Execute.{Agent, fetch_detail, job_detail, job_plane}

module _ {S F O T G : Type 0} (a : Agent S F O T G) (jwt : String) where
  fetch_detail-IsWrapped :
      (v : World S O T G × Option (JobDetail O)) → IsWrapped (fetch_detail a jwt v).0
  unfolding fetch_detail IsWrapped
  fetch_detail-IsWrapped (w, d) =
      let e = (call_rpc a.server a.token_manager jwt get_job_detail w).0 in
      elim (Bool-cases (is_nil e)) [
        | inl ok ↦ rw ok (inl refl)
        | inr failed ↦ rw failed (inr ("get job detail", e, refl))
      ]

  push-IsWrapped :
      (prefix : String) (rpc : Rpc O T G) (w : World S O T G)
      → IsWrapped (push a.server a.token_manager jwt prefix rpc w).0
  unfolding push IsWrapped
  push-IsWrapped prefix rpc w =
      let e = (call_rpc a.server a.token_manager jwt rpc w).0 in
      elim (Bool-cases (not (is_nil (a.server.transcode rpc)))) [
        | inl broken ↦ rw broken (inr (prefix, a.server.transcode rpc, refl))
        | inr fine ↦ rw fine (elim (Bool-cases (is_nil e)) [
          | inl ok ↦ rw ok (inl refl)
          | inr failed ↦ rw failed (inr (prefix, e, refl))
        ])
      ]

  -- Under a live context the agent asks for a job's detail once and pushes a batch once, whatever
  -- the retry policy and whatever the RPC fails with: no failure is retried.
  pub retries_never :
      (prefix : String) (rpc : Rpc O T G) (w : World S O T G)
      → is_nil (a.clock.done w.local) ≡ true
      → (job_detail a jwt w ≡ fetch_detail a jwt (w, none))
        × (retried a.float a.retry_policy
              (job_plane a jwt)
              (push a.server a.token_manager jwt prefix rpc)
              w
            ≡ (push a.server a.token_manager jwt prefix rpc w).1)
  unfolding job_detail retried job_plane
  retries_never prefix rpc w live = (
    do_retry-wrapped a.float a.retry_policy _ (w, none) live (fetch_detail-IsWrapped (w, none)),
    ap (λ (r : Error × World S O T G). r.1)
        (do_retry-wrapped a.float a.retry_policy _ w live (push-IsWrapped prefix rpc w)),
  )
