-- ===== src/Client/StreamPush.antt =====
-- Pushing the paths of a batch or of a request, with a result for each (client/streampush.go). The
-- push may change the state of the world and answers `none` or the text of its error.
pub mod Reported
use niks.Common.{ℕ, zero, suc, String, Option, none, some, List, [], ◌∷◌, map}
use niks.Common.{
  Bool, true, false, ◌&&◌, ◌||◌, if◌then◌else◌, leb, nat_beq, length, ◌==◌, string_eq,
}

abbrev pub stream_isolation_probes : ℕ
stream_isolation_probes = 3

pub data StreamStatus : Type 0 where
  status_ok status_error : StreamStatus

pub record StreamResult : Type 0 where
  pub id : ℕ
  pub path : String
  pub status : StreamStatus
  pub message : String
  pub skipped : String
  pub signatures : List String

-- `StreamPusher`: the functions that may be nil give nothing then.
pub record StreamPusher (W : Type 0) : Type 0 where
  pub push : W → List String → Option String × W
  pub cancelled : W → Bool
  pub signatures : String → List String
  pub skipped : String → String

abbrev pub failed : String → String → StreamResult
failed message path = record {
  id = 0;
  path = path;
  status = status_error;
  message = message;
  skipped = "";
  signatures = [];
}

module _ {W : Type 0} (s : StreamPusher W) where
  -- `result`.
  unfoldable pub result : ℕ → StreamStatus → String → String → StreamResult
  result id status_ok message path =
      let why = s.skipped path in
      record {
        id = id;
        path = path;
        status = status_ok;
        message = if why == "" then message else why;
        skipped = if why == "" then "" else "max-nar-size";
        signatures = s.signatures path;
      }
  result id status_error message path = record {
    id = id;
    path = path;
    status = status_error;
    message = message;
    skipped = "";
    signatures = [];
  }

  -- The loop over a batch that failed with `error`.
  unfoldable pub isolate : String → List String → ℕ → ℕ → W → List StreamResult × W
  unfolding result
  isolate error [] succeeded failures w = ([], w)
  isolate error (p ∷ ps) succeeded failures w =
      let (answer, w') = s.push w (p ∷ []) in
      let after_failure = isolate error ps succeeded (suc failures) w' in
      let after_success = isolate error ps (suc succeeded) failures w' in
      if nat_beq succeeded 0 && leb stream_isolation_probes failures
      then (map (failed error) (p ∷ ps), w)
      else (elim answer [
        | some e ↦ (failed e p ∷ after_failure.0, after_failure.1)
        | none ↦ (result 0 status_ok "" p ∷ after_success.0, after_success.1)
      ])

  -- `upload`.
  unfoldable pub upload : List String → W → List StreamResult × W
  unfolding isolate result
  upload batch w =
      let (answer, w') = s.push w batch in
      elim answer [
        | none ↦ (map (result 0 status_ok "") batch, w')
        | some e ↦
            if nat_beq (length batch) 1 || s.cancelled w'
            then (map (failed e) batch, w')
            else isolate e batch 0 0 w'
      ]

  -- `uploadRequest`; `decode` is the JSON decoder, for the id and the paths.
  unfoldable pub upload_request :
      (String → Option (ℕ × List String)) → String → W → List StreamResult × W
  unfolding result
  upload_request decode line w = elim (decode line) [
    | none ↦ (failed "bad request line" line ∷ [], w)
    | some request ↦ elim request.1 [
      | [] ↦ (failed "bad request line" line ∷ [], w)
      | p ∷ ps ↦ elim (s.push w (p ∷ ps)).0 [
        | none ↦ (map (result request.0 status_ok "") (p ∷ ps), (s.push w (p ∷ ps)).1)
        | some e ↦ (map (result request.0 status_error e) (p ∷ ps), (s.push w (p ∷ ps)).1)
      ]
    ]
  ]
