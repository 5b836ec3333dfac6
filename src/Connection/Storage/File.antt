-- ===== src/Connection/Storage/File.antt =====
-- The store in a file as an implementation of the store in memory.
use teti_bot.Base.{
  String, ◌≡◌, refl, Bool, Option, some, number_equality, text_equality, Result, ok, err, ◌>>=◌,
  ◌>>◌,
}
use teti_bot.Connection.Types.{ConnectionRecord, Patch}
use teti_bot.Connection.Protocol.{Fault, connection_version}
use teti_bot.Connection.Storage.{
  Connections, ConnectionStore, placed, validate_record, validate_all, upsert, update, save_all,
  load_all_file, save_all_file, upsert_file, update_file, validate_store,
}
use teti_bot.Connection.Storage.Laws.{
  AllValid, validate_all-AllValid, AllValid-placed, AllValid-update,
}

-- The file that holds these records.
abbrev pub file_of : Connections → Option ConnectionStore
file_of cs = some (record { version = connection_version; connections = cs })

abbrev pub map_ok : {A B : Type 0} → (A → B) → Result Fault A → Result Fault B
map_ok f (ok a) = ok (f a)
map_ok f (err e) = err e

module _ (is_date : String → Bool) where
  pub load_all_file-file_of :
      (cs : Connections) → AllValid is_date cs → load_all_file is_date (file_of cs) ≡ ok cs
  unfolding load_all_file validate_store
  load_all_file-file_of cs v = rw (validate_all-AllValid is_date cs v)

  save_all_step :
      (cs : Connections) (r : Result Fault (Unit {0}))
      → (r >> ok (file_of cs)) ≡ map_ok file_of (r >> ok cs)
  save_all_step cs (ok _) = refl
  save_all_step cs (err e) = refl

  -- Saving to the file and to memory accept the same lists, and the file then holds the list.
  pub save_all_file-refines :
      (cs : Connections) → save_all_file is_date cs ≡ map_ok file_of (save_all is_date cs)
  unfolding save_all_file save_all validate_store
  save_all_file-refines cs = save_all_step cs (validate_all is_date cs)

  upsert_step :
      (c : ConnectionRecord) (cs : Connections) (r : Result Fault (Unit {0}))
      → validate_record is_date c ≡ r
      → AllValid is_date cs
      → (r >> (load_all_file is_date (file_of cs) >>= λ l. save_all_file is_date (placed c l)))
        ≡ map_ok file_of (r >> ok (placed c cs))
  unfolding save_all_file validate_store
  upsert_step c cs (ok _) e v =
      rw (load_all_file-file_of cs v)
        (rw (validate_all-AllValid is_date (placed c cs) (AllValid-placed is_date c cs e v)) refl)
  upsert_step c cs (err f) e v = refl

  -- On a file of valid records `upsert` fails as it does in memory, or leaves the file that holds the
  -- list it leaves in memory.
  pub upsert_file-refines :
      (c : ConnectionRecord) (cs : Connections)
      → AllValid is_date cs
      → upsert_file is_date c (file_of cs) ≡ map_ok file_of (upsert is_date c cs)
  unfolding upsert_file upsert
  upsert_file-refines c cs v = upsert_step c cs (validate_record is_date c) refl v

  abbrev pub with_file : ConnectionRecord × Connections → ConnectionRecord × Option ConnectionStore
  with_file (c, cs) = (c, file_of cs)

  save_updated :
      ConnectionRecord × Connections → Result Fault (ConnectionRecord × Option ConnectionStore)
  save_updated x = save_all_file is_date x.1 >>= λ file. ok (x.0, file)

  update_step :
      (k : String) (patch : Patch) (cs : Connections)
      (r : Result Fault (ConnectionRecord × Connections))
      → update is_date k patch cs ≡ r
      → AllValid is_date cs
      → (r >>= save_updated) ≡ map_ok with_file r
  unfolding save_updated save_all_file validate_store
  update_step k patch cs (ok (c, cs')) e v =
      rw (validate_all-AllValid is_date cs' (AllValid-update is_date k patch cs cs' c v e)) refl
  update_step k patch cs (err f) e v = refl

  -- On a file of valid records `update` fails as it does in memory, or returns the
  -- same record and leaves the file that holds the list it leaves in memory.
  pub update_file-refines :
      (k : String) (patch : Patch) (cs : Connections)
      → AllValid is_date cs
      → update_file is_date k patch (file_of cs) ≡ map_ok with_file (update is_date k patch cs)
  unfolding update_file update save_updated
  update_file-refines k patch cs v =
      rw (load_all_file-file_of cs v) (update_step k patch cs (update is_date k patch cs) refl v)
