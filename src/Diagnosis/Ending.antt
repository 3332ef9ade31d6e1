-- ===== src/Diagnosis/Ending.antt =====
-- server/diagnose.go: the command comes to an end, once its timers fire.
use torrent_web_seeder.Prelude.{
  ◌≡◌, refl, ap, sym, ◌∙◌, Bool, true, false, Option, none, some, Option-cases, Bool-cases, List,
  [], ◌∷◌, ◌++◌, inl, inr, ◌≢◌, ◌⊎◌, if◌then◌else◌, Text, codes, Int64, is_nil, map, ◌||◌, ok, err,
  Result-cases, has_prefix,
}
use mathlib.Core.List.{append_assoc}
use torrent_web_seeder.Diagnosis.{Format, extract_tracker_lines}
use torrent_web_seeder.Diagnosis.Report.{print_diagnosis}
use torrent_web_seeder.Diagnosis.Phases.{
  line, Printed, failure, meta_phase, info_lines, verdict, tracker_phase, stats_phase, peer_phase,
}
use torrent_web_seeder.Diagnosis.Command.{
  World, Report, usage, final_phases, torrent_phases, run_diagnose, add_to, input_phase,
  client_lines, first_lines, magnet_phase, file_phase,
}
use torrent_web_seeder.Diagnosis.Waits.{
  MetaEnds, arrives, TestEnds, meta_phase_ends, test_phase_ends,
}

regroup {ℓ} : {A : Type ℓ} (a b c d : List A) → a ++ (b ++ (c ++ d)) ≡ (a ++ (b ++ c)) ++ d
regroup a b c d = simp append_assoc

module _ (F : Format) where
  module _ (w : World F) (timeout : Int64) (m : MetaEnds w.meta_events)
      (t : TestEnds w.test_events) where
    phases_from :
        (ls : List Printed) (got : Bool)
        → meta_phase w.info_known timeout w.meta_events ≡ some (ls, got)
        → (before : List Printed) × (torrent_phases F w timeout
            ≡ some (before ++ final_phases F w got))
    unfolding torrent_phases
    phases_from ls false e = (ls, rw (torrent_phases, e) refl)
    phases_from ls true e =
        let (test, k) = test_phase_ends F timeout w.since w.test_events t in
        (
          ls ++ (info_lines F w.info ++ test),
          rw (torrent_phases, e)
              (rw k (ap some (regroup ls (info_lines F w.info) test (final_phases F w true)))),
        )

    -- The error of the torrent's input: the link, or the file.
    unfoldable pub input_error : Text → Option Text
    input_error input =
        if has_prefix input (codes "magnet:")
        then elim (w.parse_magnet input) [ err e ↦ some e | ok m ↦ w.add_magnet input ]
        else elim (w.load_file input) [
          | err e ↦ some e
          | ok mi ↦ elim mi.info [ err e ↦ some e | ok i ↦ w.add_torrent ]
        ]

    -- The first of the errors in the command's way.
    unfoldable pub first_error : Text → Option Text
    first_error input = if is_nil input then some usage else elim w.new_client [
      | some e ↦ some e
      | none ↦ elim w.start_client [ some e ↦ some e | none ↦ input_error input ]
    ]

    -- The last phases of a report, with a diagnosis of whether the metadata came.
    abbrev pub ending : List Printed
    ending =
        let got = w.info_known || arrives w.meta_events in
        let trackers = extract_tracker_lines w.status in
        tracker_phase F trackers
        ++ (stats_phase F got w.num_pieces w.stats
            ++ (peer_phase F w.peer_conns
                ++ (line (codes "--- Raw Client Status ---")
                    ∷ (line w.status
                        ∷ (line (codes "=== Diagnosis ===")
                            ∷ map verdict (print_diagnosis F got w.stats.shown trackers))))))

    final_phases-ending : final_phases F w (w.info_known || arrives w.meta_events) ≡ ending
    unfolding final_phases
    final_phases-ending = refl

    -- What the command comes to: its first error; or none, and a report that ends with the last
    -- phases.
    pub record Ends (input : Text) (r : Report F) : Type 0 where
      pub error : r.error ≡ first_error input
      pub report :
          (r.error ≢ none)
          ⊎ ((before : List Printed) × (r.error ≡ none)
              × (r.closed ≡ true)
              × (r.printed ≡ before ++ ending))

    abbrev fails : List Printed → Text → Bool → Report F
    fails ls e closed = record { printed = ls; error = some e; closed = closed }

    fails-Ends :
        (input : Text) (ls : List Printed) (e : Text) (closed : Bool)
        → some e ≡ first_error input
        → Ends input (fails ls e closed)
    fails-Ends input ls e closed h = record { error = h; report = inl (λ n. cc) }

    add_to-Ends :
        (input : Text) (shown : List Printed)
        → first_error input ≡ none
        → (r : Report F) × (add_to F shown (torrent_phases F w timeout) ≡ some r) × Ends input r
    unfolding add_to
    add_to-Ends input shown fine =
        let got = w.info_known || arrives w.meta_events in
        let (ls, e) = meta_phase_ends w.info_known timeout w.meta_events m in
        let (before, p) = phases_from ls got e in
        (
          record {
            printed = shown ++ (before ++ final_phases F w got);
            error = none;
            closed = true;
          },
          rw p refl,
          record {
            error = sym fine;
            report = inr (
              shown ++ before,
              refl,
              refl,
              sym (append_assoc shown before (final_phases F w got))
                  ∙ ap (λ x. (shown ++ before) ++ x) final_phases-ending,
            );
          },
        )

    magnet_phase-error :
        (input : Text)
        → (magnet_phase F w input).1
          ≡ (elim (w.parse_magnet input) [ err e ↦ some e | ok k ↦ w.add_magnet input ])
    unfolding magnet_phase
    magnet_phase-error input = elim (Result-cases (w.parse_magnet input)) [
      | inl (e, q) ↦ rw (magnet_phase, q) refl
      | inr (k, q) ↦ elim (Option-cases (w.add_magnet input)) [
        | inl a ↦ rw (magnet_phase, q, a) refl
        | inr (e, a) ↦ rw (magnet_phase, q, a) refl
      ]
    ]

    file_phase-error :
        (input : Text)
        → (file_phase F w input).1 ≡ (elim (w.load_file input) [
          | err e ↦ some e
          | ok mi ↦ elim mi.info [ err e ↦ some e | ok i ↦ w.add_torrent ]
        ])
    unfolding file_phase
    file_phase-error input = elim (Result-cases (w.load_file input)) [
      | inl (e, q) ↦ rw (file_phase, q) refl
      | inr (mi, q) ↦ elim (Result-cases mi.info) [
        | inl (e, i) ↦ rw (file_phase, q) (rw i refl)
        | inr (k, i) ↦ elim (Option-cases w.add_torrent) [
          | inl a ↦ rw (file_phase, q) (rw i (rw a refl))
          | inr (e, a) ↦ rw (file_phase, q) (rw i (rw a refl))
        ]
      ]
    ]

    input_phase-error : (input : Text) → (input_phase F w input).1 ≡ input_error input
    unfolding input_phase input_error
    input_phase-error input = elim (Bool-cases (has_prefix input (codes "magnet:"))) [
      | inl y ↦ rw y (magnet_phase-error input)
      | inr n ↦ rw n (file_phase-error input)
    ]

    run_to_phases :
        (input : Text)
        → is_nil input ≡ false
        → w.new_client ≡ none
        → w.start_client ≡ none
        → (input_phase F w input).1 ≡ none
        → run_diagnose F w timeout input
          ≡ add_to F (client_lines F w ++ (input_phase F w input).0) (torrent_phases F w timeout)
    unfolding run_diagnose
    run_to_phases input e c k i = simp (e, c, k, i)

    first_is_input :
        (input : Text)
        → is_nil input ≡ false
        → w.new_client ≡ none
        → w.start_client ≡ none
        → first_error input ≡ input_error input
    unfolding first_error input_error
    first_is_input input e c k = rw (first_error, e) (rw c (rw k refl))

    input-Ends :
        (input : Text)
        → is_nil input ≡ false
        → w.new_client ≡ none
        → w.start_client ≡ none
        → (r : Report F) × (run_diagnose F w timeout input ≡ some r) × Ends input r
    unfolding run_diagnose first_error
    input-Ends input e c k =
        let ls = client_lines F w ++ (input_phase F w input).0 in
        let first : first_error input ≡ (input_phase F w input).1 =
          first_is_input input e c k ∙ sym (input_phase-error input) in
        elim (Option-cases (input_phase F w input).1) [
          | inr (x, i) ↦ (
            fails ls x true,
            rw (run_diagnose, e) (rw c (rw k (rw i refl))),
            fails-Ends input ls x true (sym (first ∙ i)),
          )
          | inl i ↦
              let (r, q, ends) = add_to-Ends input ls (first ∙ i) in
              (r, run_to_phases input e c k i ∙ q, ends)
        ]

    -- When the timers of the two waits fire, or the metadata arrive first, the command ends. It returns
    -- the first error: that there is no input, or one of the client, of its start, of the link or
    -- file, or of adding the torrent. If there is none, it closes the client and prints, after
    -- whatever came before, the trackers, the statistics, the peers, the status, and the diagnosis of
    -- the trackers and statistics and of whether the metadata were known or arrived in time.
    pub run_diagnose-Ends :
        (input : Text) → (r : Report F) × (run_diagnose F w timeout input ≡ some r) × Ends input r
    unfolding run_diagnose first_error
    run_diagnose-Ends input = elim (Bool-cases (is_nil input)) [
      | inl e ↦ (
        fails [] usage false,
        rw (run_diagnose, e) refl,
        fails-Ends input [] usage false (rw (first_error, e) refl),
      )
      | inr e ↦ elim (Option-cases w.new_client) [
        | inr (x, c) ↦
            let ls = first_lines F ++ (failure (codes "Client init error") x ∷ []) in
            (
              fails ls x false,
              rw (run_diagnose, e) (rw c refl),
              fails-Ends input ls x false (rw (first_error, e) (rw c refl)),
            )
        | inl c ↦ elim (Option-cases w.start_client) [
          | inr (x, k) ↦
              let ls = first_lines F ++ (failure (codes "Client start error") x ∷ []) in
              (
                fails ls x true,
                rw (run_diagnose, e) (rw c (rw k refl)),
                fails-Ends input ls x true (rw (first_error, e) (rw c (rw k refl))),
              )
          | inl k ↦ input-Ends input e c k
        ]
      ]
    ]
