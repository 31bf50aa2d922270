-- ===== src/Server/Sign.antt =====
-- Signing the narinfos of a push (server/uploads.go: SignNarinfosHandler). A map is a table without
-- repeated keys, in the order in which it is gone through; signers are a service. What a fingerprint
-- is made of is kept as bytes.
pub mod Signed
mod Tests
use niks.Common.{
  ℕ, String, Option, none, some, List, [], ◌∷◌, ◌++◌, map, Bool, true, false, not, if◌then◌else◌,
  ◌==◌, string_eq, nat_eq, contains, length, is_none,
}
use niks.Common.Table.{Table, keys, lookup, upsert}
use niks.Server.Keys.{Key}
use niks.Server.Db.{Db, PendingObject, PendingClosure}
use niks.Server.Push.{find_pending}
use niks.Server.Multipart.{Response, refused, answered}

-- `NarinfoMetadata`.
pub record NarinfoMetadata : Type 0 where
  pub store_path : Key
  pub url : String
  pub compression : String
  pub nar_hash : Key
  pub nar_size : ℕ
  pub references : List Key
  pub deriver : Option String
  pub signatures : List String
  pub ca : Option String

-- What is signed of it.
pub record NarInfo : Type 0 where
  pub store_path : Key
  pub nar_hash : Key
  pub nar_size : ℕ
  pub references : List Key

abbrev pub Narinfos : Type 0
Narinfos = Table String NarinfoMetadata

abbrev pub Signatures : Type 0
Signatures = Table String (List Key)

-- The answer of a signer, a signature for each key, or an error.
abbrev pub Signer : Type 0
Signer = Table String NarInfo → Option (Table String Key)

abbrev pub nar_info : NarinfoMetadata → NarInfo
nar_info meta = record {
  store_path = meta.store_path;
  nar_hash = meta.nar_hash;
  nar_size = meta.nar_size;
  references = meta.references;
}

-- Every key has to belong to the pending closure.
unfoldable pub all_valid : List String → Narinfos → Bool
unfolding contains
all_valid valid_keys [] = true
all_valid valid_keys ((key, meta) ∷ ms) =
    let rest = all_valid valid_keys ms in if contains valid_keys key then rest else false

unfoldable pub no_signatures : Narinfos → Signatures
no_signatures [] = []
no_signatures ((key, meta) ∷ ms) = (key, []) ∷ no_signatures ms

unfoldable pub nar_infos : Narinfos → Table String NarInfo
nar_infos [] = []
nar_infos ((key, meta) ∷ ms) = (key, nar_info meta) ∷ nar_infos ms

abbrev pub and_signature : Key → Option (List Key) → List Key
and_signature signature none = signature ∷ []
and_signature signature (some existing) = existing ++ signature ∷ []

-- The signatures of one signer, each behind those of its key. A key that was not asked for is an
-- error.
unfoldable pub append_signatures : Table String Key → Signatures → Option Signatures
unfolding lookup upsert
append_signatures [] all = some all
append_signatures ((key, signature) ∷ rest) all =
    let next = append_signatures rest (upsert key (and_signature signature) all) in
    if is_none (lookup key all) then none else next

-- The loop over the signing keys; a nil signer is an error.
unfoldable pub sign_each : Narinfos → List (Option Signer) → Signatures → Response Signatures
unfolding append_signatures nar_infos
sign_each narinfos [] all = answered all
sign_each narinfos (none ∷ signers) all = refused 500
sign_each narinfos (some signer ∷ signers) all = elim (signer (nar_infos narinfos)) [
  | none ↦ refused 500
  | some signatures ↦
      if length signatures == length narinfos
      then (elim (append_signatures signatures all) [
        | none ↦ refused 500
        | some all' ↦ sign_each narinfos signers all'
      ])
      else refused 500
]

-- `GetPendingObjectKeys`.
unfoldable pub pending_object_keys : ℕ → Db → List String
unfolding find_pending
pending_object_keys id db = elim (find_pending id db.pending_closures) [
  | none ↦ []
  | some c ↦ map (λ o. o.key) c.objects
]

-- The handler, for a pending closure.
unfoldable pub sign_narinfos : ℕ → Db → List (Option Signer) → Narinfos → Response Signatures
unfolding all_valid sign_each no_signatures pending_object_keys
sign_narinfos id db signers narinfos =
    if all_valid (pending_object_keys id db) narinfos
    then if length narinfos == 0
      then answered (no_signatures narinfos)
      else sign_each narinfos signers (no_signatures narinfos)
    else refused 403
