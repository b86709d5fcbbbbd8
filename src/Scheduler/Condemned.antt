-- ===== src/Scheduler/Condemned.antt =====
-- A pass whose results condemn a device, where the executor does not fail.
use gpu_dead_node_detector.Scheduler.Outcome.{manager-process_result}
use gpu_dead_node_detector.Health
use gpu_dead_node_detector.Common.{
  All, ◌++◌, ◌∷◌, [], ◌≡◌, ◌≢◌, ok, inl, inr, true, false, List, is_ok, ◌⊎◌, Result, for_each, ap,
  arith, ◌∙◌, refl, collect, map, collect-split, collect-keys, sym, for_each-append,
}
use gpu_dead_node_detector.Health.{
  healthy, suspected, unhealthy, isolated, StateTransition, device_key, HealthState, get,
  isolation_completed,
}
use gpu_dead_node_detector.Device.{DeviceId, Error}
use gpu_dead_node_detector.Scheduler.{
  process_result, DetectionScheduler, State, handle, handle_all, update_metrics, run_l1_detection,
}
use gpu_dead_node_detector.Detection.{DetectionResult, has_fatal_finding}
use gpu_dead_node_detector.Health.Diagram.{state_of, state_of-get, get-transition_ne}
use gpu_dead_node_detector.Scheduler.Isolation.{
  newly_unhealthy_isolated, fatal_result_isolated, only_recorded, falls-cases,
}
use gpu_dead_node_detector.Health.Checks.{get-process_result_ne}
use gpu_dead_node_detector.Detection.Passive.{detect_all, detect}
use gpu_dead_node_detector.Detection.Passive.Verdict.{detect_ok, device-detect}
use gpu_dead_node_detector.Detection.Passive.Sees.{sees_fatal, detect_condemns}

-- The results of other devices: those with another key.
abbrev pub Others : DeviceId → List DetectionResult → Type 0
Others d results = All (λ q. device_key q.device ≢ device_key d) results

ok_of : (r : Result Error (Unit {0})) → is_ok r ≡ true → r ≡ ok tt
ok_of r h = ground arith

pub Others-map :
    (d : DeviceId) (results : List DetectionResult)
    → All (λ q. device_key q ≢ device_key d) (map (λ r. r.device) results)
    → Others d results
Others-map d [] others = tt
Others-map d (r ∷ results) others = (others.0, Others-map d results others.1)

module _ {W : Type 0} (s : DetectionScheduler W)
    (executes : (done : StateTransition) (w : W)
      → is_ok (s.isolation_executor.execute done w).0 ≡ true) where
  -- Handling a result succeeds, and changes the record of no device with another key.
  pub process_result_lem :
      (r : DetectionResult) (st : State W)
      → ((process_result s r st).0 ≡ ok tt)
        × ((d : DeviceId)
            → device_key r.device ≢ device_key d
            → get (process_result s r st).1.manager d ≡ get st.manager d)
  process_result_lem r st =
      let m = st.manager in
      let n = (Health.process_result m (s.clock st.world) r).0 in
      elim (falls-cases (state_of m r.device) (state_of n r.device)) [
        | inl (was, is) ↦
            let (answer, state) = newly_unhealthy_isolated s r st was is in
            let (c, e) = manager-process_result s r st was is (executes _ _) in
            (
              answer ∙ ok_of _ (executes _ _),
              λ d differ.
                  ap (λ m. get m d) e
                  ∙ get-transition_ne n c r.device d isolation_completed differ
                  ∙ get-process_result_ne m (s.clock st.world) r d differ,
            )
        | inr stays ↦
            let (answer, manager, world) = only_recorded s r st stays in
            (
              answer,
              λ d differ.
                  ap (λ m. get m d) manager ∙ get-process_result_ne m (s.clock st.world) r d differ,
            )
      ]

  -- A handled result, with the metrics counted.
  handle_done :
      (r : DetectionResult) (st : State W)
      → ((handle s r st).0 ≡ ok tt)
        × ((handle s r st).1.manager ≡ (process_result s r st).1.manager)
  unfolding handle update_metrics
  handle_done r st = rw ((process_result_lem r st).0) (refl, refl)

  -- A pass over the results of other devices ends well and leaves a device's record alone.
  handle_all-Others :
      (d : DeviceId) (results : List DetectionResult) (st : State W)
      → Others d results
      → ((handle_all s results st).0 ≡ ok tt)
        × (get (handle_all s results st).1.manager d ≡ get st.manager d)
  unfolding handle_all for_each
  handle_all-Others d [] st others = (refl, refl)
  handle_all-Others d (q ∷ results) st others =
      let (done, manager) = handle_done q st in
      let (answer, same) = handle_all-Others d results (handle s q st).1 others.1 in
      rw done (answer, same ∙ ap (λ m. get m d) manager ∙ (process_result_lem q st).1 d others.0)

  -- A pass in which one result is about a device: it ends well, and makes of the device's record what
  -- this result makes of it.
  pub handle_all_lem :
      (d : DeviceId) (before after : List DetectionResult) (r : DetectionResult) (st : State W)
      → Others d before
      → Others d after
      → let reached = (handle_all s before st).1 in
        let final = handle_all s (before ++ r ∷ after) st in
        (final.0 ≡ ok tt)
        × (get reached.manager d ≡ get st.manager d)
        × (get final.1.manager d ≡ get (process_result s r reached).1.manager d)
  handle_all_lem d before after r st others others' =
      let (first, same) = handle_all-Others d before st others in
      let reached = (handle_all s before st).1 in
      let (done, manager) = handle_done r reached in
      let (last, kept) = handle_all-Others d after (handle s r reached).1 others' in
      let whole : handle_all s (before ++ r ∷ after) st
          ≡ handle_all s after (handle s r reached).1 =
        unfold handle_all for_each in
        for_each-append (handle s) before (r ∷ after) st (rw first refl) ∙ rw done in
      (
        ap (λ p. p.0) whole ∙ last,
        same,
        ap (λ p. get p.1.manager d) whole ∙ kept ∙ ap (λ m. get m d) manager,
      )

  handle_all_isolates :
      (before after : List DetectionResult) (r : DetectionResult) (st : State W)
      → Others r.device before
      → Others r.device after
      → r.passed ≡ false
      → has_fatal_finding r ≡ true
      → (state_of st.manager r.device ≡ healthy) ⊎ (state_of st.manager r.device ≡ suspected)
      → ((handle_all s (before ++ r ∷ after) st).0 ≡ ok tt)
        × (state_of (handle_all s (before ++ r ∷ after) st).1.manager r.device ≡ isolated)
  handle_all_isolates before after r st others others' failed fatal was =
      let (answer, same, final) = handle_all_lem r.device before after r st others others' in
      let reached = (handle_all s before st).1 in
      let was' : (state_of reached.manager r.device ≡ healthy)
          ⊎ (state_of reached.manager r.device ≡ suspected) =
        rw (state_of-get st.manager reached.manager r.device same) was in
      (
        answer,
        state_of-get _ _ r.device final
            ∙ (fatal_result_isolated s r reached failed fatal was' (executes _ _)).1,
      )

  -- A passive pass over listed devices. Let one of them be healthy or suspected and no other have its
  -- key. If it shows a double-bit ECC error or an XID error that is listed as fatal when it has its
  -- turn, and the executor does not fail, the pass ends without an error and the device is isolated,
  -- whatever the other devices show.
  pub l1_pass_isolates :
      (before after : List DeviceId) (d : DeviceId) (st : State W)
      → (s.l1_detector.device.list_devices st.world).0 ≡ ok (before ++ d ∷ after)
      → All (λ q. device_key q ≢ device_key d) before
      → All (λ q. device_key q ≢ device_key d) after
      → sees_fatal s.l1_detector d
          (collect (detect s.l1_detector) before (s.l1_detector.device.list_devices st.world).1).1
        ≡ true
      → (state_of st.manager d ≡ healthy) ⊎ (state_of st.manager d ≡ suspected)
      → let (answer, final) = run_l1_detection s st in
        (answer ≡ ok tt) × (state_of final.manager d ≡ isolated)
  unfolding run_l1_detection detect_all
  l1_pass_isolates before after d st listed others others' fatal was =
      let det = s.l1_detector in
      let w = (det.device.list_devices st.world).1 in
      let (ys, r, zs, found, ys_found, r_found, zs_found) =
        collect-split (detect det) (detect_ok det) before after d w in
      let keys = collect-keys (detect det) (λ r. r.device) (device-detect det) in
      let same = device-detect det d _ r r_found in
      let (failed, is_fatal) = detect_condemns det d _ r fatal r_found in
      let not_before : Others d ys = Others-map d ys (rw (keys before w ys ys_found) others) in
      let not_after : Others d zs = Others-map d zs (rw (keys after _ zs zs_found) others') in
      let asked = record st { world = (collect (detect det) (before ++ d ∷ after) w).1 } in
      let (answer, state) =
        handle_all_isolates ys zs r asked (rw same not_before) (rw same not_after) failed is_fatal
          (rw same was) in
      let final = (handle_all s (ys ++ r ∷ zs) asked).1.manager in
      rw (listed, found) (answer, ap (λ q. state_of final q) (sym same) ∙ state)
