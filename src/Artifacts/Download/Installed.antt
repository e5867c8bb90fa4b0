-- ===== src/Artifacts/Download/Installed.antt =====
-- What is on disk after `resolve_artifact`.
use voxedge.Base.{
  All, ◌≡◌, refl, ap, sym, ◌∙◌, true, false, Bool-cases, inl, inr, Option, none, some, List, [],
  ◌∷◌, ◌++◌, map, append-nil, append_assoc, is_empty, if_intro, if◌then◌else◌,
}
use voxedge.Text.Strip.{Text}
use voxedge.Text.Equality.{same_text}
use voxedge.Artifacts.Result.{
  Error, absent, downloader_error, download_failed, not_written, sha256_mismatch, Result, ok, err,
}
use voxedge.Artifacts.Manifest.{ArtifactFile, rel_path, source_rel}
use voxedge.Artifacts.Download.{
  Files, Fetched, done, raised_artifact_error, raised_other, Host, ArtifactInstallResult, unlink,
  is_correct, dest_of, verify, downloaded, Source, resolve_one, and_then, resolve_all,
}

rejoin :
    {A : Type 0} (a c d : List A) {b c' x : List A}
    → b ≡ a ++ c
    → c' ≡ c ++ d
    → x ≡ b ++ d
    → x ≡ a ++ c'
rejoin a c d e f g = g ∙ (ap (λ l. l ++ d) e ∙ (append_assoc a c d ∙ ap (λ l. a ++ l) (sym f)))

module _ {P C : Type 0} (h : Host P C) where
  -- The destinations of an artifact's files are different paths.
  abbrev pub Apart : ArtifactFile → ArtifactFile → Type 0
  Apart a b =
      (h.same_path (dest_of h a) (dest_of h b) ≡ false)
      × (h.same_path (dest_of h b) (dest_of h a) ≡ false)

  abbrev pub Distinct : List ArtifactFile → Type 0
  Distinct [] = Unit
  Distinct (item ∷ items) = All (Apart item) items × Distinct items

  -- A file that is there has the declared digest.
  abbrev pub IsInstalled : Files P C → ArtifactFile → Type 0
  IsInstalled fs item = is_correct h item (fs (dest_of h item)) ≡ true

  -- The paths that were right before, and those that were not.
  abbrev pub present_before : Files P C → List ArtifactFile → List Text
  present_before fs [] = []
  present_before fs (item ∷ items) =
      let rest = present_before fs items in
      if is_correct h item (fs (dest_of h item)) then rel_path item ∷ rest else rest

  abbrev pub wanting_before : Files P C → List ArtifactFile → List Text
  wanting_before fs [] = []
  wanting_before fs (item ∷ items) =
      let rest = wanting_before fs items in
      if is_correct h item (fs (dest_of h item)) then rest else rel_path item ∷ rest

  -- The error is about the file, and a file with a wrong digest is not left behind.
  abbrev pub Fails : ArtifactFile → Error → Files P C → Type 0
  Fails item (absent path) fs =
      (path ≡ rel_path item) × (is_correct h item (fs (dest_of h item)) ≡ false)
  Fails item (downloader_error path) fs = path ≡ rel_path item
  Fails item (download_failed path) fs = path ≡ rel_path item
  Fails item (not_written path) fs = (path ≡ rel_path item) × (fs (dest_of h item) ≡ none)
  Fails item (sha256_mismatch path) fs = (path ≡ rel_path item) × (fs (dest_of h item) ≡ none)
  Fails item _ fs = ⊥

  -- How the files of an artifact are resolved, by the result.
  abbrev pub Resolved :
      List ArtifactFile
      → Files P C
      → ArtifactInstallResult P
      → Result (ArtifactInstallResult P) × Files P C
      → Type 0
  Resolved items fs r (ok r', fs') =
      All (IsInstalled fs') items
      × (r'.files ≡ r.files ++ map (dest_of h) items)
      × (r'.installed ≡ r.installed ++ wanting_before fs items)
      × (r'.skipped ≡ r.skipped ++ present_before fs items)
      × (r'.artifact_ref ≡ r.artifact_ref)
  Resolved items fs r (err e, fs') =
      (before : List ArtifactFile) × (item : ArtifactFile) × (after : List ArtifactFile) × (items
        ≡ before ++ (item ∷ after))
      × All (IsInstalled fs') before
      × Fails item e fs'

  -- `Own` is the paths that only a download to them changes.
  module _ (Own : P → Type 0) (s : Source h) (same_path_refl : (p : P) → h.same_path p p ≡ true)
      (keeps_others : (repo revision source : Text) (dest : P) (endpoint : Text) (fs : Files P C)
          (p : P)
        → Own p
        → h.same_path p dest ≡ false
        → (s.download_fn repo revision source dest endpoint fs).1 p ≡ fs p) where
    -- Other paths keep their content, whatever the result.
    Keeps : P → Files P C → Result (ArtifactInstallResult P) × Files P C → Type 0
    Keeps p fs r = r.1 p ≡ fs p

    unlink-other :
        (p dest : P) (fs : Files P C) → h.same_path p dest ≡ false → unlink h dest fs p ≡ fs p
    unfolding unlink
    unlink-other p dest fs e = rw e refl

    verify-Keeps :
        (p : P) (item : ArtifactFile) (r : ArtifactInstallResult P) (c : Option C) (fs : Files P C)
        → h.same_path p (dest_of h item) ≡ false
        → Keeps p fs (verify h item r c fs)
    unfolding verify Keeps
    verify-Keeps p item r none fs e = refl
    verify-Keeps p item r (some c) fs e =
        if_intro {A = Result (ArtifactInstallResult P) × Files P C} (Keeps p fs)
          (same_text (h.sha256 c) item.sha256) _ _ (λ _. refl)
          (λ _. unlink-other p (dest_of h item) fs e)

    downloaded-Keeps :
        (p : P) (item : ArtifactFile) (r : ArtifactInstallResult P) (f : Fetched × Files P C)
        → h.same_path p (dest_of h item) ≡ false
        → Keeps p f.1 (downloaded h item r f)
    unfolding downloaded Keeps
    downloaded-Keeps p item r (raised_artifact_error, fs) e = refl
    downloaded-Keeps p item r (raised_other, fs) e = refl
    downloaded-Keeps p item r (done, fs) e = verify-Keeps p item r _ fs e

    resolve_one-Keeps :
        (p : P) (item : ArtifactFile) (r : ArtifactInstallResult P) (fs : Files P C)
        → Own p
        → h.same_path p (dest_of h item) ≡ false
        → Keeps p fs (resolve_one h s item r fs)
    unfolding resolve_one Keeps
    resolve_one-Keeps p item r fs o e =
        if_intro {A = Result (ArtifactInstallResult P) × Files P C} (Keeps p fs)
          (is_correct h item (fs (dest_of h item))) _ _ (λ _. refl)
          (λ _.
            if_intro {A = Result (ArtifactInstallResult P) × Files P C} (Keeps p fs)
              (is_empty s.repo_id) _ _ (λ _. refl)
              (λ _.
                downloaded-Keeps p item _ _ e
                ∙ keeps_others s.repo_id s.revision (source_rel item) (dest_of h item) s.endpoint fs
                    p o e))

    -- One file.
    abbrev Checked :
        ArtifactFile
        → ArtifactInstallResult P
        → Result (ArtifactInstallResult P) × Files P C
        → Type 0
    Checked item r (ok r', fs') =
        IsInstalled fs' item × (r' ≡ record r { installed = r.installed ++ (rel_path item ∷ []) })
    Checked item r (err e, fs') = Fails item e fs'

    verify-Checked :
        (item : ArtifactFile) (r : ArtifactInstallResult P) (c : Option C) (fs : Files P C)
        → fs (dest_of h item) ≡ c
        → Checked item r (verify h item r c fs)
    unfolding verify unlink
    verify-Checked item r none fs e = (refl, e)
    verify-Checked item r (some c) fs e =
        if_intro {A = Result (ArtifactInstallResult P) × Files P C} (Checked item r)
          (same_text (h.sha256 c) item.sha256) _ _ (λ k. (rw e k, refl))
          (λ k. (refl, rw (same_path_refl (dest_of h item)) refl))

    downloaded-Checked :
        (item : ArtifactFile) (r : ArtifactInstallResult P) (f : Fetched × Files P C)
        → Checked item r (downloaded h item r f)
    unfolding downloaded
    downloaded-Checked item r (raised_artifact_error, fs) = refl
    downloaded-Checked item r (raised_other, fs) = refl
    downloaded-Checked item r (done, fs) = verify-Checked item r _ fs refl

    -- One file, with what is recorded of it.
    abbrev One :
        ArtifactFile
        → Files P C
        → ArtifactInstallResult P
        → Result (ArtifactInstallResult P) × Files P C
        → Type 0
    One item fs r (ok r', fs') = Resolved (item ∷ []) fs r (ok r', fs')
    One item fs r (err e, fs') = Fails item e fs'

    noted : ArtifactFile → ArtifactInstallResult P → ArtifactInstallResult P
    noted item r = record r { files = r.files ++ (dest_of h item ∷ []) }

    downloaded-One :
        (item : ArtifactFile) (fs : Files P C) (r : ArtifactInstallResult P)
        (x : Result (ArtifactInstallResult P) × Files P C)
        → is_correct h item (fs (dest_of h item)) ≡ false
        → Checked item (noted item r) x
        → One item fs r x
    unfolding noted
    downloaded-One item fs r (ok r', fs') k c = (
      (c.0, tt),
      ap (λ x. x.files) c.1,
      rw k (ap (λ x. x.installed) c.1),
      rw k (ap (λ x. x.skipped) c.1 ∙ sym (append-nil r.skipped)),
      ap (λ x. x.artifact_ref) c.1,
    )
    downloaded-One item fs r (err e, fs') k c = c

    resolve_one-One :
        (item : ArtifactFile) (r : ArtifactInstallResult P) (fs : Files P C)
        → One item fs r (resolve_one h s item r fs)
    unfolding resolve_one noted
    resolve_one-One item r fs =
        if_intro {A = Result (ArtifactInstallResult P) × Files P C} (One item fs r)
          (is_correct h item (fs (dest_of h item))) _ _
          (λ k. ((k, tt), refl, rw k (sym (append-nil r.installed)), rw k refl, refl))
          (λ k.
            if_intro {A = Result (ArtifactInstallResult P) × Files P C} (One item fs r)
              (is_empty s.repo_id) _ _ (λ _. (refl, k))
              (λ _. downloaded-One item fs r _ k (downloaded-Checked item _ _)))

    and_then-Keeps :
        (p : P) (fs : Files P C)
        (f : ArtifactInstallResult P → Files P C → Result (ArtifactInstallResult P) × Files P C)
        (x : Result (ArtifactInstallResult P) × Files P C)
        → Keeps p fs x
        → ((r : ArtifactInstallResult P) (fs' : Files P C) → Keeps p fs' (f r fs'))
        → Keeps p fs (and_then h f x)
    unfolding Keeps
    and_then-Keeps p fs f (ok r, fs') k g = g r fs' ∙ k
    and_then-Keeps p fs f (err e, fs') k g = k

    resolve_all-Keeps :
        (p : P) (items : List ArtifactFile) (r : ArtifactInstallResult P) (fs : Files P C)
        → Own p
        → All (λ b. h.same_path p (dest_of h b) ≡ false) items
        → Keeps p fs (resolve_all h s items r fs)
    unfolding resolve_all
    resolve_all-Keeps p [] r fs o a = unfold Keeps in refl
    resolve_all-Keeps p (item ∷ items) r fs o a =
        and_then-Keeps p fs _ (resolve_one h s item r fs) (resolve_one-Keeps p item r fs o a.0)
          (λ r' fs'. resolve_all-Keeps p items r' fs' o a.1)

    present_same :
        (fs fs' : Files P C) (items : List ArtifactFile)
        → All (λ b. fs' (dest_of h b) ≡ fs (dest_of h b)) items
        → (present_before fs' items ≡ present_before fs items)
          × (wanting_before fs' items ≡ wanting_before fs items)
    present_same fs fs' [] a = (refl, refl)
    present_same fs fs' (item ∷ items) a =
        let rest = present_same fs fs' items a.1 in (rw (a.0, rest.0) refl, rw (a.0, rest.1) refl)

    before_cons :
        (fs : Files P C) (item : ArtifactFile) (items : List ArtifactFile)
        → (present_before fs (item ∷ items)
            ≡ present_before fs (item ∷ []) ++ present_before fs items)
          × (wanting_before fs (item ∷ items)
              ≡ wanting_before fs (item ∷ []) ++ wanting_before fs items)
    before_cons fs item items = elim (Bool-cases (is_correct h item (fs (dest_of h item)))) [
      | inl k ↦ (rw k refl, rw k refl)
      | inr k ↦ (rw k refl, rw k refl)
    ]

    -- The rest after the first file.
    cons-Resolved :
        (item : ArtifactFile) (items : List ArtifactFile) (fs fs' : Files P C)
        (r r' : ArtifactInstallResult P) (x : Result (ArtifactInstallResult P) × Files P C)
        → Resolved (item ∷ []) fs r (ok r', fs')
        → All (λ b. fs' (dest_of h b) ≡ fs (dest_of h b)) items
        → Resolved items fs' r' x
        → x.1 (dest_of h item) ≡ fs' (dest_of h item)
        → Resolved (item ∷ items) fs r x
    cons-Resolved item items fs fs' r r' (ok r'', fs'') o a q e =
        let same = present_same fs fs' items a in
        let cons' = before_cons fs item items in
        (
          (rw e o.0.0, q.0),
          rejoin r.files (dest_of h item ∷ []) (map (dest_of h) items) o.1 refl q.1,
          rejoin r.installed (wanting_before fs (item ∷ [])) (wanting_before fs items) o.2 cons'.1
              (q.2 ∙ ap (λ l. r'.installed ++ l) same.1),
          rejoin r.skipped (present_before fs (item ∷ [])) (present_before fs items) o.3 cons'.0
              (q.3 ∙ ap (λ l. r'.skipped ++ l) same.0),
          q.4 ∙ o.4,
        )
    cons-Resolved item items fs fs' r r' (err x, fs'') o a q e =
        (item ∷ q.0, q.1, q.2, ap (λ l. item ∷ l) q.3, (rw e o.0.0, q.4), q.5)

    and_then-Resolved :
        (item : ArtifactFile) (items : List ArtifactFile) (fs : Files P C)
        (r : ArtifactInstallResult P)
        (f : ArtifactInstallResult P → Files P C → Result (ArtifactInstallResult P) × Files P C)
        (x : Result (ArtifactInstallResult P) × Files P C)
        → One item fs r x
        → All (λ b. x.1 (dest_of h b) ≡ fs (dest_of h b)) items
        → ((r' : ArtifactInstallResult P) (fs' : Files P C)
            → Resolved items fs' r' (f r' fs')
              × ((f r' fs').1 (dest_of h item) ≡ fs' (dest_of h item)))
        → Resolved (item ∷ items) fs r (and_then h f x)
    and_then-Resolved item items fs r f (ok r', fs') o a g =
        cons-Resolved item items fs fs' r r' (f r' fs') o a (g r' fs').0 (g r' fs').1
    and_then-Resolved item items fs r f (err e, fs') o a g = ([], item, items, refl, tt, o)

    kept_by_one :
        (item : ArtifactFile) (r : ArtifactInstallResult P) (fs : Files P C)
        (items : List ArtifactFile)
        → All (λ b. Own (dest_of h b)) items
        → All (Apart item) items
        → All (λ b. (resolve_one h s item r fs).1 (dest_of h b) ≡ fs (dest_of h b)) items
    unfolding Keeps
    kept_by_one item r fs [] o a = tt
    kept_by_one item r fs (b ∷ items) o a =
        (resolve_one-Keeps (dest_of h b) item r fs o.0 a.0.1, kept_by_one item r fs items o.1 a.1)

    away :
        (item : ArtifactFile) (items : List ArtifactFile)
        → All (Apart item) items
        → All (λ b. h.same_path (dest_of h item) (dest_of h b) ≡ false) items
    away item [] a = tt
    away item (b ∷ items) a = (a.0.0, away item items a.1)

    -- The files of an artifact whose destinations are different paths, with a downloader that changes no
    -- other of them, are resolved to one of two ends. Without an error every file is there with its
    -- declared digest, the paths are listed in order, and they are recorded as skipped where the file
    -- was right before and as installed where it was not. With an error every file before the one that
    -- the error is about is there with its declared digest, and a download with a wrong digest is removed.
    pub resolve_all-Resolved :
        (items : List ArtifactFile) (r : ArtifactInstallResult P) (fs : Files P C)
        → All (λ b. Own (dest_of h b)) items
        → Distinct items
        → Resolved items fs r (resolve_all h s items r fs)
    unfolding resolve_all Keeps
    resolve_all-Resolved [] r fs o d = (
      tt,
      sym (append-nil r.files),
      sym (append-nil r.installed),
      sym (append-nil r.skipped),
      refl,
    )
    resolve_all-Resolved (item ∷ items) r fs o d =
        and_then-Resolved item items fs r _ (resolve_one h s item r fs) (resolve_one-One item r fs)
          (kept_by_one item r fs items o.1 d.0)
          (λ r' fs'. (
            resolve_all-Resolved items r' fs' o.1 d.1,
            resolve_all-Keeps (dest_of h item) items r' fs' o.0 (away item items d.0),
          ))
