-- ===== src/Connection/Storage/Tests.antt =====
-- Concrete runs of the stores.
use teti_bot.Identity.{is_canonical_public_id}
use teti_bot.Base.{is_blank}
use teti_bot.Connection.Protocol.{reject_private_fields, validate_request}
use teti_bot.Base.{
  ◌≡◌, refl, true, some, List, [], ◌∷◌, ◌==◌, number_equality, text_equality, if◌then◌else◌, ok,
}
use teti_bot.Connection.Types.{ConnectionRecord, apply_patch, is_confirmed}
use teti_bot.Connection.Handshake.{accepted_patch}
use teti_bot.Connection.Storage.{upsert, update, load_all_file, validate_record, placed}
use teti_bot.Connection.Storage.Ids.{DistinctIds, lookup}
use teti_bot.Connection.Storage.Laws.{AllValid, update_lem}
use teti_bot.Connection.Storage.File.{file_of, load_all_file-file_of}
use teti_bot.Connection.Storage.Runs.{
  file_calls-refines, file_calls, memory_calls, StorageCall, to_update, to_upsert, to_remove_all,
  to_save,
}
use teti_bot.Connection.Tests.{
  records, third, older, at, accepted, received, records-DistinctIds, records-AllValid,
}

stores : Unit {0}
unfolding apply_patch is_confirmed validate_record placed upsert update reject_private_fields
    validate_request is_blank is_canonical_public_id
stores = tt

update_lem_example :
    (c : ConnectionRecord) × (lookup "request-1" records ≡ some c)
    × (accepted ≡ apply_patch c (accepted_patch at) "request-1")
    × (lookup "request-1" (older ∷ accepted ∷ third ∷ []) ≡ (
        if accepted.request_id == "request-1" then some accepted else lookup "request-1" records))
    × DistinctIds (older ∷ accepted ∷ third ∷ [])
    × AllValid (λ _. true) (older ∷ accepted ∷ third ∷ [])
unfolding stores
update_lem_example =
    update_lem (λ _. true) "request-1" (accepted_patch at) records (older ∷ accepted ∷ third ∷ [])
      accepted "request-1" records-DistinctIds records-AllValid refl

abbrev stored_calls : List StorageCall
stored_calls =
    to_update "request-1" (accepted_patch at)
    ∷ to_upsert received
    ∷ to_remove_all
    ∷ to_update "request-1" (accepted_patch at)
    ∷ to_save records
    ∷ []

file_calls-refines_example :
    ((file_calls (λ _. true) stored_calls (file_of records)).0
      ≡ (memory_calls (λ _. true) stored_calls records).0)
    × (load_all_file (λ _. true) (file_calls (λ _. true) stored_calls (file_of records)).1
        ≡ ok (memory_calls (λ _. true) stored_calls records).1)
    × AllValid (λ _. true) (memory_calls (λ _. true) stored_calls records).1
file_calls-refines_example =
    file_calls-refines (λ _. true) stored_calls (file_of records) records
      (load_all_file-file_of (λ _. true) records records-AllValid) records-AllValid
