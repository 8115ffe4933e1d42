-- ===== src/Orchestrator/Register/Vouched.antt =====
-- What holds of the files where apps/orchestrator/src/registration.ts registers evidence.
use verichron_epoch.Prelude.{
  ◌≡◌, refl, sym, ap, ◌∙◌, inl, inr, true, [], ◌∷◌, Option, none, some, String, Text, str_eq,
  eq_iff, arith, Bool-cases,
}
use verichron_epoch.Contracts.{ToolVersion}
use verichron_epoch.Contracts.Identity.{Identity}
use verichron_epoch.Orchestrator.{Registration}
use verichron_epoch.Orchestrator.Evidence.{
  FilePath, same_path, Attempt, accepted, refused, ◌>>=◌, Node, Sidecar, SidecarFile, missing,
  unparsable, invalid, valid, Disk, locate_workspace, sidecar_at, manifest_for, check_manifest,
  check_sidecar, verify_sidecar, read_device, load_device_secret, device_key, Provenance, Marker,
  Place, nothing, plain_file, directory, MadeFromDecrypt, made_from_decrypt, Derivatives,
  check_decrypt, verify_derivatives,
}
use verichron_epoch.Orchestrator.Register.{
  Tables, Fresh, Verified, RegistrationInput, verify, register_evidence,
}
use verichron_epoch.Orchestrator.Register.Again.{Registered, register-Registered}

-- The sidecar is this label's and on disk, and the manifest in this label's evidence folder hashes
-- to the content root that it names.
abbrev pub SidecarVouches : Node → Disk → FilePath → String → Sidecar → Type 0
SidecarVouches node disk workspace label sidecar =
    (disk.sidecar (sidecar_at workspace label) ≡ valid sidecar)
    × (sidecar.evidence_name ≡ label)
    × ((bytes : Text) × (disk.manifest (manifest_for workspace label sidecar.content_root)
          ≡ some bytes)
        × (node.sha256 bytes ≡ sidecar.content_root))

-- A derivative that is registered stands in its folder, with a marker that names this root.
abbrev pub MadeOf : String → Option (FilePath × Place) → Option MadeFromDecrypt → Type 0
MadeOf root place none = Unit
MadeOf root place (some made) =
    (m : Marker) × (place ≡ some (made.path, directory (some m)))
    × (m.content_root ≡ root)
    × (m.provenance ≡ made.provenance)

abbrev pub DecryptOf : String → Option Marker → Provenance → Type 0
DecryptOf root marker provenance =
    (m : Marker) × (marker ≡ some m) × (m.content_root ≡ root) × (m.provenance ≡ provenance)

bind_accepted :
    {A B : Type 0} (attempt : Attempt A) (next : A → Attempt B) {b : B}
    → (attempt >>= next) ≡ accepted b
    → (found : A) × (attempt ≡ accepted found) × (next found ≡ accepted b)
bind_accepted (refused why) next e = absurd (ground arith)
bind_accepted (accepted found) next e = (found, refl, e)

same_path-eq : (p q : FilePath) → same_path p q ≡ true → p ≡ q
same_path-eq [] [] h = refl
same_path-eq [] (b ∷ q) h = absurd (ground arith)
same_path-eq (a ∷ p) [] h = absurd (ground arith)
same_path-eq (a ∷ p) (b ∷ q) h = ground (arith, eq_iff a b, same_path-eq p q)

check_manifest-accepted :
    (node : Node) (sidecar found : Sidecar) (bytes : Option Text)
    → check_manifest node sidecar bytes ≡ accepted found
    → (sidecar ≡ found) × ((b : Text) × (bytes ≡ some b) × (node.sha256 b ≡ sidecar.content_root))
check_manifest-accepted node sidecar found none h = cc
check_manifest-accepted node sidecar found (some b) h =
    elim (Bool-cases (str_eq (node.sha256 b) sidecar.content_root)) [
      | inl same ↦ (ground arith, (b, refl, (eq_iff (node.sha256 b) sidecar.content_root).0 same))
      | inr differs ↦ absurd (ground arith)
    ]

check_sidecar-SidecarVouches :
    (node : Node) (disk : Disk) (workspace : FilePath) (label : String) (sidecar found : Sidecar)
    → disk.sidecar (sidecar_at workspace label) ≡ valid sidecar
    → check_sidecar node disk workspace label sidecar ≡ accepted found
    → SidecarVouches node disk workspace label found
unfolding check_sidecar
check_sidecar-SidecarVouches node disk workspace label sidecar found there h =
    let p : FilePath = node.resolve workspace sidecar.manifest_path in
    let q : FilePath = manifest_for workspace label sidecar.content_root in
    elim (Bool-cases (str_eq sidecar.evidence_name label)) [
      | inr other ↦ absurd (ground (arith, simp other at h))
      | inl own ↦ elim (Bool-cases (same_path p q)) [
        | inr elsewhere ↦ absurd (ground (arith, simp (own, elsewhere) at h))
        | inl same ↦
            let (is, (bytes, read, hashes)) =
              check_manifest-accepted node sidecar found (disk.manifest p)
                (simp (own, same) at h) in
            rw (← is) (
              there,
              (eq_iff sidecar.evidence_name label).0 own,
              (bytes, ap disk.manifest (sym (same_path-eq p q same)) ∙ read, hashes),
            )
      ]
    ]

verify_sidecar-SidecarVouches :
    (node : Node) (disk : Disk) (workspace : FilePath) (label : String) (found : Sidecar)
    → verify_sidecar node disk workspace label ≡ accepted found
    → SidecarVouches node disk workspace label found
unfolding verify_sidecar
verify_sidecar-SidecarVouches node disk workspace label found h =
    go (disk.sidecar (sidecar_at workspace label)) refl
  where
    go :
        (f : SidecarFile)
        → disk.sidecar (sidecar_at workspace label) ≡ f
        → SidecarVouches node disk workspace label found
    go missing e = absurd (ground (arith, simp (e, verify_sidecar) at h))
    go unparsable e = absurd (ground (arith, simp (e, verify_sidecar) at h))
    go invalid e = absurd (ground (arith, simp (e, verify_sidecar) at h))
    go (valid sidecar) e =
        check_sidecar-SidecarVouches node disk workspace label sidecar found e
          (simp (e, verify_sidecar) at h)

made_from_decrypt-MadeOf :
    (what root : String) (place : Option (FilePath × Place)) (made : Option MadeFromDecrypt)
    → made_from_decrypt what place root ≡ accepted made
    → MadeOf root place made
unfolding made_from_decrypt
made_from_decrypt-MadeOf what root place none h = tt
made_from_decrypt-MadeOf what root none (some made) h = absurd (ground arith)
made_from_decrypt-MadeOf what root (some (dir, nothing)) (some made) h = absurd (ground arith)
made_from_decrypt-MadeOf what root (some (dir, plain_file)) (some made) h = absurd (ground arith)
made_from_decrypt-MadeOf what root (some (dir, directory none)) (some made) h =
    absurd (ground arith)
made_from_decrypt-MadeOf what root (some (dir, directory (some m))) (some made) h =
    elim (Bool-cases (str_eq m.content_root root)) [
      | inl same ↦
          let is : record { path = dir; provenance = m.provenance } ≡ made = ground arith in
          (
            m,
            ap (λ (x : MadeFromDecrypt). some (x.path, directory (some m))) is,
            (eq_iff m.content_root root).0 same,
            ap (λ (x : MadeFromDecrypt). x.provenance) is,
          )
      | inr other ↦ absurd (ground arith)
    ]

check_decrypt-DecryptOf :
    (marker : Option Marker) (root : String) (p : Provenance)
    → check_decrypt marker root ≡ accepted p
    → DecryptOf root marker p
check_decrypt-DecryptOf none root p h = cc
check_decrypt-DecryptOf (some m) root p h = elim (Bool-cases (str_eq m.content_root root)) [
  | inl same ↦ (m, refl, (eq_iff m.content_root root).0 same, ground arith)
  | inr other ↦ absurd (ground arith)
]

locate_workspace-accepted :
    (path workspace : FilePath) (label : String)
    → locate_workspace path ≡ accepted (workspace, label)
    → path ≡ label ∷ "decrypted" ∷ workspace
unfolding locate_workspace
locate_workspace-accepted [] workspace label h = absurd (ground arith)
locate_workspace-accepted (a ∷ []) workspace label h = absurd (ground arith)
locate_workspace-accepted (a ∷ b ∷ p) workspace label h = ground (arith, eq_iff b "decrypted")

-- What the checks before the transaction establish.
abbrev pub Vouched : Node → Disk → RegistrationInput → Verified → Type 0
Vouched node disk input v =
    ((workspace : FilePath) × (label : String) × (input.backup_path
        ≡ label ∷ "decrypted" ∷ workspace)
      × SidecarVouches node disk workspace label v.sidecar)
    × DecryptOf v.sidecar.content_root input.decrypt_marker v.derivatives.decrypt
    × MadeOf v.sidecar.content_root input.ileapp v.derivatives.ileapp
    × MadeOf v.sidecar.content_root input.crash_reports v.derivatives.crash_reports

verify_derivatives-accepted :
    (marker : Option Marker) (ileapp crash : Option (FilePath × Place)) (root : String)
    (d : Derivatives)
    → verify_derivatives marker ileapp crash root ≡ accepted d
    → DecryptOf root marker d.decrypt
      × MadeOf root ileapp d.ileapp
      × MadeOf root crash d.crash_reports
unfolding verify_derivatives
verify_derivatives-accepted marker ileapp crash root d h =
    let (p, decrypts, h1) = bind_accepted (check_decrypt marker root) _ h in
    let (i, made, h2) = bind_accepted (made_from_decrypt "iLEAPP's output" ileapp root) _ h1 in
    let (c, copied, h3) = bind_accepted (made_from_decrypt "the crash-log copy" crash root) _ h2 in
    let is : record { decrypt = p; ileapp = i; crash_reports = c } ≡ d = ground arith in
    rw (← is) (
      check_decrypt-DecryptOf marker root p decrypts,
      made_from_decrypt-MadeOf "iLEAPP's output" root ileapp i made,
      made_from_decrypt-MadeOf "the crash-log copy" root crash c copied,
    )

verify-Vouched :
    (node : Node) (disk : Disk) (input : RegistrationInput) (v : Verified)
    → verify node disk input ≡ accepted v
    → Vouched node disk input v
unfolding verify
verify-Vouched node disk input v h =
    let (located, where_is, h1) = bind_accepted (locate_workspace input.backup_path) _ h in
    let (sidecar, own, h2) = bind_accepted (verify_sidecar node disk located.0 located.1) _ h1 in
    let (device, read, h3) =
      bind_accepted
        (read_device disk (input.backup_path ∷ node.resolve [] sidecar.source_path ∷ [])) _ h2 in
    let (secret, loaded, h4) =
      bind_accepted
        (load_device_secret input.windows input.secret_found input.secret_published
          input.secret_fresh).0
        _ h3 in
    let (d, made, h5) =
      bind_accepted
        (verify_derivatives input.decrypt_marker input.ileapp input.crash_reports
          sidecar.content_root)
        _ h4 in
    let is : record {
      sidecar = sidecar;
      device_name = device.name;
      key = device_key node device.udid secret;
      decrypted_path = input.backup_path;
      derivatives = d;
    }
        ≡ v =
      ground arith in
    let (a, b, c) =
      verify_derivatives-accepted input.decrypt_marker input.ileapp input.crash_reports
        sidecar.content_root d made in
    rw (← is) (
      (
        located.0,
        located.1,
        locate_workspace-accepted input.backup_path located.0 located.1 where_is,
        verify_sidecar-SidecarVouches node disk located.0 located.1 sidecar own,
      ),
      a,
      b,
      c,
    )

-- What a call of `registerEvidence` gives, with the tables behind it.
abbrev pub VouchedResult :
    Node
    → (ToolVersion → Identity → String)
    → Disk
    → RegistrationInput
    → Tables
    → Tables × Attempt Registration
    → Type 0
VouchedResult node hash disk input t (t', refused e) = t' ≡ t
VouchedResult node hash disk input t (t', accepted r) =
    (v : Verified) × Vouched node disk input v × Registered hash input.host v t' r

-- Where evidence is registered, its files vouch for it: the sidecar is the label's, the manifest in
-- the label's folder hashes to the content root that it names, and the marker of each derivative that
-- is registered names that root; and the tables hold the evidence under that root, its location, and
-- each derivative with its path and params under the id that the registration gives. Where a
-- registration is refused, the tables are as they were.
pub register_evidence-Vouched :
    (node : Node) (hash : ToolVersion → Identity → String) (disk : Disk) (input : RegistrationInput)
    (fresh : Fresh) (t : Tables)
    → VouchedResult node hash disk input t (register_evidence node hash disk input fresh t)
unfolding register_evidence
register_evidence-Vouched node hash disk input fresh t = go (verify node disk input) refl
  where
    go :
        (m : Attempt Verified)
        → verify node disk input ≡ m
        → VouchedResult node hash disk input t (register_evidence node hash disk input fresh t)
    go (refused e) is = simp (is, register_evidence) refl
    go (accepted v) is =
        simp (is, register_evidence)
          (v, verify-Vouched node disk input v is, register-Registered hash input.host v fresh t)
