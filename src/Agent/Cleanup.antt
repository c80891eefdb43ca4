-- ===== src/Agent/Cleanup.antt =====
-- What the removal of a clone leaves as it is.
use rediver_sdk_go.Prelude.{
  ◌≡◌, refl, ◌∙◌, true, [], ◌∷◌, inl, inr, Bool-cases, String, is_empty, ℤ, pos, List,
}
use rediver_sdk_go.Errors.{Error, is_nil}
use rediver_sdk_go.Logger.{Attr, handle, new_job_log_handler, enabled}
use rediver_sdk_go.Job.Defs.{Job}
use rediver_sdk_go.Convert.Message.{ProtoLogLevel}
use rediver_sdk_go.Agent.Rpc.{World, log, call_rpc}
use rediver_sdk_go.Agent.Client.{send_log}
use rediver_sdk_go.Agent.Execute.{Agent, write_log, cleanup_repository}

module _ {S F O T G V : Type 0} (a : Agent S F O T G) (jwt : String) (view : World S O T G → V)
    (logs : (l : ProtoLogLevel) (m : String) (w : World S O T G)
      → view (call_rpc a.server a.token_manager jwt (log l m) w).1 ≡ view w)
    (moves : (s : S) (w : World S O T G) → view (record w { local = s }) ≡ view w) where
  write_log-view :
      (level : ℤ) (message : String) (attrs : List (Attr String)) (w : World S O T G)
      → view (write_log a jwt level message attrs w) ≡ view w
  unfolding write_log handle new_job_log_handler send_log
  write_log-view level message attrs w =
      elim (Bool-cases (enabled (new_job_log_handler {V = String} true a.log_level) level)) [
        | inl y ↦ rw y (logs _ _ w)
        | inr n ↦ rw n refl
      ]

  abbrev removal : Job F O → World S O T G → Error × S
  removal j w = a.system.remove_all j.cloned_repo_dir w.local

  abbrev removed : Job F O → World S O T G → World S O T G
  removed j w = record w { local = (removal j w).1 }

  abbrev dir_of : Job F O → Attr String
  dir_of j = record { key = "dir"; value = j.cloned_repo_dir }

  -- A view that neither a call of Log nor the rest of the world changes.
  pub cleanup_repository-view :
      (j : Job F O) (w : World S O T G) → view (cleanup_repository a jwt j w) ≡ view w
  unfolding cleanup_repository
  cleanup_repository-view j w = elim (Bool-cases (is_empty j.cloned_repo_dir)) [
    | inl e ↦ rw e refl
    | inr full ↦
        rw full (elim (Bool-cases (is_nil (a.system.remove_all j.cloned_repo_dir w.local).0)) [
          | inl ok ↦ rw ok (
              write_log-view (pos 0) "cleaned up cloned repo" (dir_of j ∷ []) (removed j w)
              ∙ moves _ w)
          | inr failed ↦ rw failed (
              write_log-view (pos 4) "cleanup repo failed"
                (dir_of j
                  ∷ record { key = "error"; value = a.clock.error_text (removal j w).0 }
                  ∷ [])
                (removed j w)
              ∙ moves _ w)
        ])
  ]
