-- ===== src/Connection/Storage/Runs.antt =====
-- Sequences of calls on the store in a file and on the store in memory.
use teti_bot.Base.{>>-eq-ok, ok_injective, subst, ◌∙◌, ap}
use teti_bot.Connection.Storage.File.{update_file-refines}
use teti_bot.Connection.Storage.Laws.{
  AllValid, AllValid-placed, AllValid-update, AllValid-of_validate_all,
}
use teti_bot.Base.{
  String, ◌≡◌, refl, Bool, Option, none, some, List, [], ◌∷◌, number_equality, text_equality,
  Result, ok, err,
}
use teti_bot.Connection.Types.{ConnectionRecord, Patch}
use teti_bot.Connection.Protocol.{Fault}
use teti_bot.Connection.Storage.{
  Connections, ConnectionStore, placed, validate_record, validate_all, upsert, update, save_all,
  load_all_file, save_all_file, upsert_file, update_file, remove_all, remove_all_file,
}
use teti_bot.Connection.Storage.File.{
  file_of, map_ok, load_all_file-file_of, save_all_file-refines, upsert_file-refines, with_file,
}

pub data StorageCall : Type 0 where
  to_save : Connections → StorageCall
  to_upsert : ConnectionRecord → StorageCall
  to_update : String → Patch → StorageCall
  to_remove_all : StorageCall

-- What a call throws, or returns if it returns a record.
abbrev pub Answer : Type 0
Answer = Result Fault (Option ConnectionRecord)

-- A call that fails leaves the state as it was.
abbrev pub settle : {S : Type 0} → S → Result Fault S → Answer × S
settle s (ok s') = (ok none, s')
settle s (err e) = (err e, s)

abbrev pub settle_updated : {S : Type 0} → S → Result Fault (ConnectionRecord × S) → Answer × S
settle_updated s (ok (c, s')) = (ok (some c), s')
settle_updated s (err e) = (err e, s)

module _ (is_date : String → Bool) where
  unfoldable pub memory_call : StorageCall → Connections → Answer × Connections
  memory_call (to_save l) cs = settle cs (save_all is_date l)
  memory_call (to_upsert c) cs = settle cs (upsert is_date c cs)
  memory_call (to_update k patch) cs = settle_updated cs (update is_date k patch cs)
  memory_call to_remove_all cs = (ok none, remove_all cs)

  unfoldable pub file_call : StorageCall → Option ConnectionStore → Answer × Option ConnectionStore
  file_call (to_save l) file = settle file (save_all_file is_date l)
  file_call (to_upsert c) file = settle file (upsert_file is_date c file)
  file_call (to_update k patch) file = settle_updated file (update_file is_date k patch file)
  file_call to_remove_all file = (ok none, remove_all_file file)

  -- The answers of a sequence of calls, and the state they leave.
  unfoldable pub memory_calls : List StorageCall → Connections → List Answer × Connections
  memory_calls [] cs = ([], cs)
  memory_calls (call ∷ calls) cs =
      let now = memory_call call cs in
      let rest = memory_calls calls now.1 in (now.0 ∷ rest.0, rest.1)

  unfoldable pub file_calls :
      List StorageCall → Option ConnectionStore → List Answer × Option ConnectionStore
  file_calls [] file = ([], file)
  file_calls (call ∷ calls) file =
      let now = file_call call file in let rest = file_calls calls now.1 in (now.0 ∷ rest.0, rest.1)

  -- The file reads as this list, whose records are valid.
  abbrev pub Holds : Option ConnectionStore → Connections → Type 0
  Holds file cs = (load_all_file is_date file ≡ ok cs) × AllValid is_date cs

  abbrev Agrees : Answer × Option ConnectionStore → Answer × Connections → Type 0
  Agrees a b = (a.0 ≡ b.0) × Holds a.1 b.1

  settle-Agrees :
      (file : Option ConnectionStore) (cs : Connections) (r : Result Fault (Option ConnectionStore))
      (s : Result Fault Connections)
      → r ≡ map_ok file_of s
      → Holds file cs
      → ((cs' : Connections) → s ≡ ok cs' → AllValid is_date cs')
      → Agrees (settle file r) (settle cs s)
  settle-Agrees file cs r (ok cs') e h valid =
      rw e (refl, (load_all_file-file_of is_date cs' (valid cs' refl), valid cs' refl))
  settle-Agrees file cs r (err f) e h valid = rw e (refl, h)

  settle_updated-Agrees :
      (file : Option ConnectionStore) (cs : Connections)
      (r : Result Fault (ConnectionRecord × Option ConnectionStore))
      (s : Result Fault (ConnectionRecord × Connections))
      → r ≡ map_ok (with_file is_date) s
      → Holds file cs
      → ((c : ConnectionRecord) (cs' : Connections) → s ≡ ok (c, cs') → AllValid is_date cs')
      → Agrees (settle_updated file r) (settle_updated cs s)
  settle_updated-Agrees file cs r (ok (c, cs')) e h valid =
      rw e (refl, (load_all_file-file_of is_date cs' (valid c cs' refl), valid c cs' refl))
  settle_updated-Agrees file cs r (err f) e h valid = rw e (refl, h)

  save_all-AllValid : (l cs' : Connections) → save_all is_date l ≡ ok cs' → AllValid is_date cs'
  unfolding save_all
  save_all-AllValid l cs' h =
      let (good, same) = >>-eq-ok (validate_all is_date l) (ok l) h in
      subst (AllValid is_date) (ok_injective same) (AllValid-of_validate_all is_date l good)

  upsert-AllValid :
      (c : ConnectionRecord) (cs cs' : Connections)
      → AllValid is_date cs
      → upsert is_date c cs ≡ ok cs'
      → AllValid is_date cs'
  unfolding upsert
  upsert-AllValid c cs cs' v h =
      let (good, same) = >>-eq-ok (validate_record is_date c) (ok (placed c cs)) h in
      subst (AllValid is_date) (ok_injective same) (AllValid-placed is_date c cs good v)

  upsert_file-read :
      (c : ConnectionRecord) (file : Option ConnectionStore) (cs : Connections)
      → Holds file cs
      → upsert_file is_date c file ≡ upsert_file is_date c (file_of cs)
  unfolding upsert_file
  upsert_file-read c file cs (read, v) = rw read (rw (load_all_file-file_of is_date cs v) refl)

  update_file-read :
      (k : String) (patch : Patch) (file : Option ConnectionStore) (cs : Connections)
      → Holds file cs
      → update_file is_date k patch file ≡ update_file is_date k patch (file_of cs)
  unfolding update_file
  update_file-read k patch file cs (read, v) =
      rw read (rw (load_all_file-file_of is_date cs v) refl)

  call-Agrees :
      (call : StorageCall) (file : Option ConnectionStore) (cs : Connections)
      → Holds file cs
      → Agrees (file_call call file) (memory_call call cs)
  unfolding file_call memory_call remove_all remove_all_file load_all_file
  call-Agrees (to_save l) file cs h =
      settle-Agrees file cs (save_all_file is_date l) (save_all is_date l)
        (save_all_file-refines is_date l) h (save_all-AllValid l)
  call-Agrees (to_upsert c) file cs h =
      settle-Agrees file cs (upsert_file is_date c file) (upsert is_date c cs)
        (upsert_file-read c file cs h ∙ upsert_file-refines is_date c cs h.1) h
        (λ cs'. upsert-AllValid c cs cs' h.1)
  call-Agrees (to_update k patch) file cs h =
      settle_updated-Agrees file cs (update_file is_date k patch file) (update is_date k patch cs)
        (update_file-read k patch file cs h ∙ update_file-refines is_date k patch cs h.1) h
        (λ c cs'. AllValid-update is_date k patch cs cs' c h.1)
  call-Agrees to_remove_all file cs h = (refl, (refl, tt))

  -- Whatever calls are made, one after the other, on a file that reads as a list of valid records, they
  -- throw and return what they do on the store in memory with that list, and the file they leave reads
  -- as the list they leave in memory, whose records are valid.
  pub file_calls-refines :
      (calls : List StorageCall) (file : Option ConnectionStore) (cs : Connections)
      → load_all_file is_date file ≡ ok cs
      → AllValid is_date cs
      → ((file_calls calls file).0 ≡ (memory_calls calls cs).0)
        × (load_all_file is_date (file_calls calls file).1 ≡ ok (memory_calls calls cs).1)
        × AllValid is_date (memory_calls calls cs).1
  unfolding file_calls memory_calls
  file_calls-refines [] file cs read v = (refl, read, v)
  file_calls-refines (call ∷ calls) file cs read v =
      let (same, (read', v')) = call-Agrees call file cs (read, v) in
      let (answers, last, valid) =
        file_calls-refines calls (file_call call file).1 (memory_call call cs).1 read' v' in
      (rw same (ap (◌∷◌ (memory_call call cs).0) answers), last, valid)
