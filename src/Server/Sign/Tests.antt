-- ===== src/Server/Sign/Tests.antt =====
-- One narinfo, signed with two keys (server/uploads.go).
use niks.Common.{
  Option, none, some, List, [], ◌∷◌, true, not, ◌||◌, if◌then◌else◌, contains, string_eq, ◌≡◌, refl,
}
use niks.Common.Table.{keys, lookup}
use niks.Server.Db.{Db, empty_db}
use niks.Server.Keys.{Key, bytes}
use niks.Server.Multipart.{answered}
use niks.Server.Sign.{Narinfos, Signatures, Signer, nar_infos, sign_narinfos, pending_object_keys}
use niks.Server.Sign.Signed.{signatures_for, sign_narinfos-signatures_for}

abbrev narinfos : Narinfos
narinfos =
    (
      "a.narinfo",
      record {
        store_path = bytes "/nix/store/a-x";
        url = "nar/a";
        compression = "zstd";
        nar_hash = bytes "sha256:a";
        nar_size = 7;
        references = [];
        deriver = none;
        signatures = [];
        ca = none;
      },
    )
    ∷ []

abbrev signer : Key → Signer
signer signature infos = some (("a.narinfo", signature) ∷ [])

abbrev signers : List (Option Signer)
signers = some (signer (bytes "k1:s")) ∷ some (signer (bytes "k2:s")) ∷ []

abbrev db : Db
db = record empty_db {
  pending_closures =
      record {
        id = 1;
        key = "a.narinfo";
        roots = none;
        started_at = 0;
        objects = record { key = "a.narinfo"; refs = []; size = none } ∷ [];
      }
      ∷ [];
}

abbrev both : Signatures
both = ("a.narinfo", bytes "k1:s" ∷ bytes "k2:s" ∷ []) ∷ []

signed : sign_narinfos 1 db signers narinfos ≡ answered both
unfolding sign_narinfos
signed = refl

sign_narinfos-signatures_for_example :
    (lookup "a.narinfo" both ≡ (
      if contains (keys narinfos) "a.narinfo"
      then some (signatures_for "a.narinfo" (nar_infos narinfos) signers)
      else none))
    × ((not (contains (keys narinfos) "a.narinfo")
          || contains (pending_object_keys 1 db) "a.narinfo")
        ≡ true)
sign_narinfos-signatures_for_example =
    sign_narinfos-signatures_for 1 db signers narinfos both "a.narinfo" signed
