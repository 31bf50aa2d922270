-- ===== src/Server/Uploads/Aborted.antt =====
-- Which rows the abort of redundant uploads takes away (server/uploads.go).
use niks.Common.{
  String, List, [], ◌∷◌, Bool, true, false, not, ◌≡◌, refl, ap, sym, ◌∙◌, arith, string_eq, filterb,
  contains, if◌then◌else◌,
}
use niks.Server.Multipart.{
  MultipartUpload, Bucket, World, Abort, aborted, no_such_upload, abort_failed,
}
use niks.Server.Uploads.{
  delete_upload, abort_each, redundant_uploads, abort_redundant_multipart_uploads,
}

-- Whether S3 has no such upload any more.
abbrev pub is_gone : Abort → Bool
is_gone aborted = true
is_gone no_such_upload = true
is_gone abort_failed = false

module _ {S : Type 0} (s3 : Bucket S) where
  -- The uploads that S3 says are gone, each asked once and in order.
  unfoldable pub gone_uploads : String → List String → S → List String
  gone_uploads key [] b = []
  gone_uploads key (id ∷ ids) b =
      let (answer, b') = s3.abort_upload key id b in
      let rest = gone_uploads key ids b' in if is_gone answer then id ∷ rest else rest

  abbrev without : List String → List MultipartUpload → List MultipartUpload
  without ids us = filterb (λ u. not (contains ids u.upload_id)) us

  without-delete :
      (id : String) (ids : List String) (us : List MultipartUpload)
      → without ids (delete_upload id us) ≡ without (id ∷ ids) us
  unfolding filterb delete_upload contains
  without-delete id ids [] = refl
  without-delete id ids (u ∷ us) = ground (
    arith,
    without-delete id ids us,
    string_eq.test_iff u.upload_id id,
    string_eq.test_iff id u.upload_id,
  )

  without_none : (us : List MultipartUpload) → without [] us ≡ us
  unfolding filterb contains
  without_none [] = refl
  without_none (u ∷ us) = ap (λ r. u ∷ r) (without_none us)

  abort_each-without :
      (key : String) (ids : List String) (us : List MultipartUpload) (b : S)
      → (abort_each s3 key ids us b).0 ≡ without (gone_uploads key ids b) us
  unfolding abort_each gone_uploads
  abort_each-without key [] us b = sym (without_none us)
  abort_each-without key (id ∷ ids) us b =
      by_answer (s3.abort_upload key id b).0 (s3.abort_upload key id b).1
        (λ us' b'. abort_each-without key ids us' b')
    where
      by_answer :
          (a : Abort) (b' : S)
          → ((us' : List MultipartUpload) (b' : S)
              → (abort_each s3 key ids us' b').0 ≡ without (gone_uploads key ids b') us')
          → (abort_each s3 key ids
              (elim a [
                | aborted ↦ delete_upload id us
                | no_such_upload ↦ delete_upload id us
                | abort_failed ↦ us
              ])
              b').0
            ≡ without
                (if is_gone a then id ∷ gone_uploads key ids b' else gone_uploads key ids b')
                us
      by_answer aborted b' later =
          later (delete_upload id us) b' ∙ without-delete id (gone_uploads key ids b') us
      by_answer no_such_upload b' later =
          later (delete_upload id us) b' ∙ without-delete id (gone_uploads key ids b') us
      by_answer abort_failed b' later = later us b'

  -- Aborting the redundant uploads of a key drops from the table the rows of those uploads that S3
  -- says are gone, and no others.
  pub abort_redundant_multipart_uploads-without :
      (key keep : String) (w : World S)
      → (abort_redundant_multipart_uploads s3 key keep w).uploads
        ≡ filterb
            (λ u. not (
              contains
                (gone_uploads key (redundant_uploads key keep w.uploads) w.bucket)
                u.upload_id))
            w.uploads
  unfolding abort_redundant_multipart_uploads
  abort_redundant_multipart_uploads-without key keep w =
      abort_each-without key (redundant_uploads key keep w.uploads) w.uploads w.bucket
