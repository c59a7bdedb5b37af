-- ===== src/Command/Replies.antt =====
-- What the client reads after a command.
use nova_kv.Prelude.{
  ℕ, ◌≡◌, refl, sym, ap, subst, ◌∙◌, ◌⊎◌, inl, inr, ltb, Bool, true, false, Bytes, ascii, [], ◌∷◌,
  ◌++◌, append_assoc, Option, none, some, length, Bool-cases, if◌then◌else◌, bytes_eq,
}
use nova_kv.ValueRecord.{ValueRecord, IsEnumerator}
use nova_kv.Tables.{MemOps, TableOps}
use nova_kv.Manifest.{Faults}
use nova_kv.NetworkBuffer.{NetworkBuffer}
use nova_kv.NetworkBuffer.Queue.{Holds, append-Holds}
use nova_kv.Resp.Decimal.{decimal}
use nova_kv.Resp.Encoder.{crlf, encode_simple_string, encode_bulk_string, encode_null, encode_array}
use nova_kv.Db.{Db, mem_limit, is_some, rotate, get, make_room, write_mem, put, new_iterator}
use nova_kv.Db.View.{newest, IsDb, answer, get_lem, newest-write_mem, write_mem-IsDb}
use nova_kv.Db.Flush.{SameTables, make_room-SameTables}
use nova_kv.Db.Iterator.{new_iterator-get}
use nova_kv.Compaction.Merge.{visible}
use nova_kv.DbIterator.{new_cursor}
use nova_kv.DbIterator.Scan.{from_key, scan-seek}
use nova_kv.Command.{
  normalize_command_name, elements_of, value_record, deletion_record, get_reply, answer_ok,
  handle_set, handle_get, handle_del, scan_reply, handle_rscan, dispatch, execute,
}

-- The wire form of an answer: a bulk string, or the null.
abbrev pub wire_value : Option Bytes → Bytes
wire_value none = ascii "$-1\r\n"
wire_value (some v) = ascii "$" ++ decimal (length v) ++ crlf ++ v ++ crlf

abbrev pub wire_ok : Bytes
wire_ok = ascii "+OK\r\n"

answer_wire :
    {b : NetworkBuffer} {s : Bytes} (r : Bool × ValueRecord)
    → Holds b s
    → Holds (get_reply b r) (s ++ wire_value (answer r))
unfolding get_reply
answer_wire {b} {s} (true, r) h =
    unfold encode_bulk_string in
    subst (Holds (encode_bulk_string b r.value)) (simp append_assoc)
      (append-Holds crlf
        (append-Holds r.value
          (append-Holds crlf
            (append-Holds (decimal (length r.value)) (append-Holds (ascii "$") h).0).0).0).0).0
answer_wire {b} {s} (false, r) h =
    unfold encode_null in
    subst (Holds (encode_null b)) (simp append_assoc)
      (append-Holds crlf (append-Holds (ascii "$-1") h).0).0

ok_wire :
    {b : NetworkBuffer} {s : Bytes}
    → Holds b s
    → Holds (encode_simple_string b (ascii "OK")) (s ++ wire_ok)
ok_wire {b} {s} h =
    unfold encode_simple_string in
    subst (Holds (encode_simple_string b (ascii "OK"))) (simp append_assoc)
      (append-Holds crlf (append-Holds (ascii "OK") (append-Holds (ascii "+") h).0).0).0

module _ {M T : Type 0} (mems : MemOps M) (tables : TableOps T) where
  -- Put need not wait.
  abbrev pub HasRoom : Db M T → Type 0
  HasRoom db = (ltb (MemOps.count mems db.mem) mem_limit ≡ true) ⊎ (db.imm ≡ none)

  make_room-some :
      (io : ℕ → Faults) (db : Db M T)
      → HasRoom db
      → (db' : Db M T) × (make_room mems tables io db ≡ some db')
  unfolding make_room is_some
  make_room-some io db (inl few) = rw few (db, refl)
  make_room-some io db (inr off) = elim (Bool-cases (ltb (MemOps.count mems db.mem) mem_limit)) [
    | inl few ↦ rw few (db, refl)
    | inr full ↦ rw full (without db.imm off)
  ]
    where
      without :
          (o : Option M)
          → o ≡ none
          → (db' : Db M T) × ((if is_some o then none else some (rotate mems tables io db))
              ≡ some db')
      without none e = (rotate mems tables io db, refl)
      without (some m) e = cc

  -- What a database is after one write: well formed, and Get answers the record that was written.
  pub record IsWritten (k : Bytes) (r : ValueRecord) (db db' : Db M T) : Type 0 where
    pub healthy : IsDb mems tables db'
    pub reads :
        (j : Bytes) (value : ValueRecord)
        → answer (get mems tables j value db')
          ≡ (if bytes_eq k j then visible (some r) else answer (get mems tables j value db))

  write-IsWritten :
      (k : Bytes) (r : ValueRecord) (db db' : Db M T)
      → IsEnumerator r.type
      → IsDb mems tables db
      → SameTables mems tables db db'
      → IsWritten k r db (write_mem mems tables k r db')
  write-IsWritten k r db db' typed ok same =
      let ok' = same.healthy ok in
      let after = write_mem-IsDb mems tables k r db' typed ok' in
      record {
        healthy = after;
        reads = λ j value.
            get_lem mems tables j value (write_mem mems tables k r db') after
            ∙ ap visible (newest-write_mem mems tables j k r db' ok')
            ∙ by_key (bytes_eq k j) (newest mems tables j db') (answer (get mems tables j value db))
                (ap visible (same.newest j) ∙ sym (get_lem mems tables j value db ok));
      }
    where
      by_key :
          (b : Bool) (o : Option ValueRecord) (a : Option Bytes)
          → visible o ≡ a
          → visible (if b then some r else o) ≡ (if b then visible (some r) else a)
      by_key true o a e = refl
      by_key false o a e = e

  -- Put and the answer OK.
  answer_put :
      (io : ℕ → Faults) (k : Bytes) (r : ValueRecord) (db : Db M T) {b : NetworkBuffer} {s : Bytes}
      → IsEnumerator r.type
      → IsDb mems tables db
      → HasRoom db
      → Holds b s
      → (db' : Db M T) × (b' : NetworkBuffer) × (answer_ok mems tables b (put mems tables io k r db)
          ≡ some (db', b'))
        × Holds b' (s ++ wire_ok)
        × IsWritten k r db db'
  unfolding put answer_ok
  answer_put io k r db {b} typed ok room h =
      let (roomy, e) = make_room-some io db room in
      (
        write_mem mems tables k r roomy,
        encode_simple_string b (ascii "OK"),
        rw (e, answer_ok) refl,
        ok_wire h,
        write-IsWritten k r db roomy typed ok (make_room-SameTables mems tables io db roomy e),
      )

  -- SET and DEL, in any case of letters, on a well-formed database where Put need not wait, into a
  -- buffer that holds some bytes: OK is answered behind them, and in the database that is left,
  -- which is well formed, Get answers the new value of the key, or nothing for a DEL, and what it
  -- answered before for every other key.
  pub set_and_del :
      (io : ℕ → Faults) (name k v : Bytes) (db : Db M T) {b : NetworkBuffer} {s : Bytes}
      → IsDb mems tables db
      → HasRoom db
      → Holds b s
      → (normalize_command_name name ≡ ascii "SET"
          → (db' : Db M T) × (b' : NetworkBuffer) × (execute mems tables io db (name ∷ k ∷ v ∷ []) b
              ≡ some (db', b'))
            × Holds b' (s ++ wire_ok)
            × IsWritten k (value_record v) db db')
        × (normalize_command_name name ≡ ascii "DEL"
            → (db' : Db M T) × (b' : NetworkBuffer) × (execute mems tables io db (name ∷ k ∷ []) b
                ≡ some (db', b'))
              × Holds b' (s ++ wire_ok)
              × IsWritten k deletion_record db db')
  unfolding execute dispatch bytes_eq handle_set handle_del
  set_and_del io name k v db ok room h = (
    λ e. rw e (answer_put io k (value_record v) db tt ok room h),
    λ e. rw e (answer_put io k deletion_record db tt ok room h),
  )

  -- GET, in any case of letters, into a buffer that holds some bytes, leaves the database alone
  -- and puts behind them what Get answers: the value as a bulk string, or the null.
  pub get_command :
      (io : ℕ → Faults) (name k : Bytes) (db : Db M T) {b : NetworkBuffer} {s : Bytes}
      → normalize_command_name name ≡ ascii "GET"
      → Holds b s
      → (b' : NetworkBuffer) × (execute mems tables io db (name ∷ k ∷ []) b ≡ some (db, b'))
        × Holds b' (s ++ wire_value (answer (get mems tables k (value_record []) db)))
  unfolding execute dispatch bytes_eq handle_get
  get_command io name k db {b} e h = rw e (
    get_reply b (get mems tables k (value_record []) db),
    refl,
    answer_wire (get mems tables k (value_record []) db) h,
  )

  -- RSCAN, in any case of letters, on a well-formed database, always answers, and leaves the
  -- database alone: an array of the keys and values of the iterator's rows whose key is not below
  -- the one sought, in their order.
  pub rscan_command :
      (io : ℕ → Faults) (name k : Bytes) (db : Db M T) (b : NetworkBuffer)
      → normalize_command_name name ≡ ascii "RSCAN"
      → IsDb mems tables db
      → execute mems tables io db (name ∷ k ∷ []) b
        ≡ some (db, encode_array b (elements_of (from_key k (new_iterator mems tables db))))
  unfolding execute dispatch bytes_eq handle_rscan new_cursor scan_reply
  rscan_command io name k db b e ok = rw e (
      ap (scan_reply mems tables db b) (
        scan-seek k (record { rows = new_iterator mems tables db; pos = 0 })
          (new_iterator-get mems tables db k (value_record []) ok).0))
