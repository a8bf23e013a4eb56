-- ===== src/Handlers/Audits.antt =====
-- Two requests of `auditHandler` of internal/handlers/handlers.go in a row.
use zfw_dark.Common.{Bool, true, false, List, Option, none, some, ◌≡◌, refl, sym, ap, ◌∙◌}
use zfw_dark.Common.Files.{
  FileSystem, FileLaws, Replaced, whole, write_error, rename_error, new, old, replace_file,
  replace_file-Whole,
}
use zfw_dark.Common.Result.{Result, ok, err}
use zfw_dark.Common.Text.{Text, is_empty}
use zfw_dark.Audit.{Finding, FindingWithHistory, History, attach, update}
use zfw_dark.Audit.Bounded.{update-clean}
use zfw_dark.Audit.Catalog.{findings}
use zfw_dark.Audit.Settled.{update-findings_settled}
use zfw_dark.Audit.Stored.{
  HistoryJson, HistoryError, history_found, history_result, history_read, load_history,
  write_history, save_history,
}
use zfw_dark.Firewall.{TierConfig}
use zfw_dark.Firewall.Live.{Status}
use zfw_dark.Handlers.Reads.{audited, answer_saved, answer_updated, answer_loaded, audit}

module _ (fs : FileSystem) (laws : FileLaws fs) (json : HistoryJson)
    (missing : Text → fs.State → Bool) (path : Text) (st : Status) (cfg : TierConfig) where
  -- A history that decodes to what was encoded.
  abbrev Decodes : History → Type 0
  Decodes h = (b : Text) → json.encode h ≡ some b → json.decode b ≡ some h

  -- The file holds this history.
  abbrev Holds : fs.State → History → Type 0
  Holds s h = load_history fs json (missing path s) path s ≡ ok h

  read-Holds :
      (s : fs.State) (h : History) (b : Text)
      → fs.read_file path s ≡ some b
      → json.decode b ≡ some h
      → Holds s h
  unfolding load_history history_read history_found
  read-Holds s h b found decoded = rw (found, decoded) refl

  result-whole : (r : Replaced) → history_result r ≡ ok tt → r ≡ whole
  unfolding history_result
  result-whole whole h = refl
  result-whole write_error h = cc
  result-whole rename_error h = cc

  written-Holds :
      (s : fs.State) (h : History) (o : Option Text)
      → json.encode h ≡ o
      → Decodes h
      → (write_history fs json path o s).1 ≡ ok tt
      → Holds (write_history fs json path o s).0 h
  unfolding write_history
  written-Holds s h none e decodes done = cc
  written-Holds s h (some b) e decodes done = elim (replace_file-Whole fs laws path b s) [
    | new _ found ↦ read-Holds (replace_file fs path b s).0 h b found (decodes b e)
    | old failed _ ↦ absurd (failed (result-whole (replace_file fs path b s).1 done))
  ]

  module _ (later : Text) (named : is_empty path ≡ false) where
    abbrev Again : fs.State → List FindingWithHistory → Type 0
    Again t out = audit fs json missing path later st cfg t ≡ (t, audited out)

    -- A history that a further update does not change.
    abbrev Settled : History → Type 0
    Settled h = update later (findings st cfg) h ≡ (h, false)

    Holds-Again :
        (t : fs.State) (h : History) → Holds t h → Settled h → Again t (attach (findings st cfg) h)
    unfolding audit answer_loaded answer_updated
    Holds-Again t h held settled = rw (named, held, settled) refl

    same_answer : (xs ys : List FindingWithHistory) → audited xs ≡ audited ys → xs ≡ ys
    same_answer xs ys h = cc

    saved-Again :
        (h : History) (w : fs.State × Result HistoryError (Unit {0}))
        → (w.1 ≡ ok tt → Holds w.0 h)
        → Settled h
        → (out : List FindingWithHistory)
        → (answer_saved fs json (findings st cfg) h w).1 ≡ audited out
        → Again (answer_saved fs json (findings st cfg) h w).0 out
    unfolding answer_saved
    saved-Again h (t, err e) held settled out said = absurd (cc)
    saved-Again h (t, ok tt) held settled out said =
        rw (← same_answer (attach (findings st cfg) h) out said)
          (Holds-Again t h (held refl) settled)

    updated-Again :
        (h : History) (changed : Bool) (s : fs.State)
        → (changed ≡ false → Holds s h)
        → Decodes h
        → Settled h
        → (out : List FindingWithHistory)
        → (answer_updated fs json path (findings st cfg) (h, changed) s).1 ≡ audited out
        → Again (answer_updated fs json path (findings st cfg) (h, changed) s).0 out
    unfolding answer_updated
    updated-Again h true s held decodes settled out said =
        saved-Again h (save_history fs json path h s)
          (unfold save_history in written-Holds s h (json.encode h) refl decodes) settled out said
    updated-Again h false s held decodes settled out said =
        rw (← same_answer (attach (findings st cfg) h) out said)
          (Holds-Again s h (held refl) settled)

    loaded-Again :
        (ts : Text) (s : fs.State) (r : Result HistoryError History)
        → load_history fs json (missing path s) path s ≡ r
        → ((h : History) → r ≡ ok h → Decodes (update ts (findings st cfg) h).0)
        → (out : List FindingWithHistory)
        → (answer_loaded fs json ts path (findings st cfg) r s).1 ≡ audited out
        → Again (answer_loaded fs json ts path (findings st cfg) r s).0 out
    unfolding answer_loaded
    loaded-Again ts s (err e) loaded decodes out said = absurd (cc)
    loaded-Again ts s (ok h) loaded decodes out said =
        let found : List Finding = findings st cfg in
        updated-Again (update ts found h).0 (update ts found h).1 s
          (λ same. loaded ∙ ap ok (sym (update-clean ts found h same))) (decodes h refl)
          (update-findings_settled ts later st cfg h) out said

    audit_named :
        (ts : Text) (s : fs.State)
        → audit fs json missing path ts st cfg s
          ≡ answer_loaded fs json ts path
              (findings st cfg)
              (load_history fs json (missing path s) path s)
              s
    unfolding audit
    audit_named ts s = rw named refl

    -- If a request for the audit is answered with findings, then the same request later, while the
    -- firewall's status and the configuration are the same, gives the same answer and touches no file,
    -- provided that a path is set, and that the history decodes to what was encoded.
    pub audit-Again :
        (ts : Text) (s : fs.State)
        → ((h : History) → Holds s h → Decodes (update ts (findings st cfg) h).0)
        → (out : List FindingWithHistory) → (audit fs json missing path ts st cfg s).1 ≡ audited out
        → Again (audit fs json missing path ts st cfg s).0 out
    audit-Again ts s decodes out =
        rw (audit_named ts s)
          (loaded-Again ts s (load_history fs json (missing path s) path s) refl decodes out)
