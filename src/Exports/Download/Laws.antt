-- ===== src/Exports/Download/Laws.antt =====
-- What is sent to whom.
use usp_cloud_native.Prelude.{
  ℕ, ◌≤◌, Str, str_eq_iff, is_empty, first, true, Option, none, some, lookup, Bool-cases,
  Option-cases, arith, ◌≡◌, refl, inl, inr,
}
use usp_cloud_native.Exports.Entity.{Export, is_completed}
use usp_cloud_native.Exports.Signing.{sign, verify}
use usp_cloud_native.Exports.Repository.{Table, has_id, get_any_by_id}
use usp_cloud_native.Exports.Worker.{Files, file_of}
use usp_cloud_native.Exports.Download.{sent, Outside, ready, verified, download}

-- Why a file is sent.
pub record IsAllowed (o : Outside) (t : Table) (files : Files) (export_id token : Str)
    (content : Str) : Type 0 where
  pub job : Export
  pub expires_at : ℕ
  pub stored : first (has_id export_id) t ≡ some job
  pub done : is_completed job.status ≡ true
  pub limit : job.download_expires_at ≡ some expires_at
  pub unexpired : o.now ≤ expires_at
  pub signed : token ≡ sign o.signer export_id expires_at
  pub kept : lookup (file_of (record job { id = export_id })) files ≡ some content

verified-eq-sent :
    (o : Outside) (files : Files) (export_id : Str) (e : Export) (kind name content : Str)
    → verified o files export_id e ≡ sent kind name content
    → lookup (file_of (record e { id = export_id })) files ≡ some content
verified-eq-sent o files export_id e kind name content h = elim (Bool-cases o.reader_lost) [
  | inl y ↦ absurd (ground (arith, (rw y at h)))
  | inr n ↦ elim (Option-cases (lookup (file_of (record e { id = export_id })) files)) [
    | inl m ↦ absurd (ground (arith, (rw (n, m) at h)))
    | inr (text, m) ↦ rw m (ground (arith, (rw (n, m) at h)))
  ]
]

module _ (o : Outside) (t : Table) (files : Files) (export_id token kind name content : Str) where
  ready-eq-sent :
      (e : Export) (limit : Option ℕ)
      → ready o files export_id token e limit ≡ sent kind name content
      → (at : ℕ) × (limit ≡ some at)
        × (verify o.signer o.now export_id token at ≡ true)
        × (lookup (file_of (record e { id = export_id })) files ≡ some content)
  ready-eq-sent e none h = absurd (ground arith)
  ready-eq-sent e (some at) h = elim (Bool-cases (verify o.signer o.now export_id token at)) [
    | inr bad ↦ absurd (ground (arith, (rw bad at h)))
    | inl good ↦
        (at, refl, good, verified-eq-sent o files export_id e kind name content (rw good at h))
  ]

  ready-IsAllowed :
      (e : Export)
      → first (has_id export_id) t ≡ some e
      → is_completed e.status ≡ true
      → ready o files export_id token e e.download_expires_at ≡ sent kind name content
      → IsAllowed o t files export_id token content
  unfolding verify
  ready-IsAllowed e here done h =
      let (at, limit, good, kept) = ready-eq-sent e e.download_expires_at h in
      record {
        job = e;
        expires_at = at;
        stored = here;
        done = done;
        limit = limit;
        unexpired = ground (arith, good);
        signed = ground (arith, good, str_eq_iff token (sign o.signer export_id at));
        kept = kept;
      }

  -- A file is sent only for a completed job, until its expiry, for the token that is the signature of
  -- the job's id and expiry, and it is the file that is kept for the job.
  pub download-IsAllowed :
      download o t files export_id token ≡ sent kind name content
      → IsAllowed o t files export_id token content
  unfolding download get_any_by_id
  download-IsAllowed h = elim (Bool-cases (is_empty token)) [
    | inl y ↦ absurd (ground (arith, (rw y at h)))
    | inr n ↦ elim (Bool-cases o.lookup_lost) [
      | inl y ↦ absurd (ground (arith, (rw (n, y) at h)))
      | inr m ↦ elim (Option-cases (first (has_id export_id) t)) [
        | inl k ↦ absurd (ground (arith, (rw (n, m, k) at h)))
        | inr (e, k) ↦ elim (Bool-cases (is_completed e.status)) [
          | inr d ↦ absurd (ground (arith, (rw (n, m, k, d) at h)))
          | inl d ↦ ready-IsAllowed e k d (rw (n, m, k, d) at h)
        ]
      ]
    ]
  ]
