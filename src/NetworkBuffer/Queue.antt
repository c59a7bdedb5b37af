-- ===== src/NetworkBuffer/Queue.antt =====
-- src/network/NetworkBuffer.cpp: the buffer as a queue of bytes.
use nova_kv.Prelude.{
  ℕ, ◌+◌, ◌-◌, ◌≤◌, ◌≡◌, refl, sym, ap, ◌∙◌, arith, false, Bytes, [], ◌++◌, append_assoc, some,
  length, length-append, length-take, length-drop, length-replicate, take-append-drop, take-all,
  take-eq-length, drop-eq-length, drop_past, drop-all, take, drop, replicate, ltb, leb, Bool-cases,
  inl, inr, ltb→lt, leb→le, subst,
}
use nova_kv.NetworkBuffer.{
  NetworkBuffer, new_buffer, readable_bytes, writable_bytes, peek, resize, make_space,
  ensure_writable_bytes, copy_at, append, retrieve, retrieve_all, read_from_fd,
}

-- The vector is what has been read, then `s`, then room.
pub record Holds (b : NetworkBuffer) (s : Bytes) : Type 0 where
  pub front : Bytes
  pub room : Bytes
  pub layout : b.buffer ≡ front ++ (s ++ room)
  pub reads : b.read_index ≡ length front
  pub writes : b.write_index ≡ length front + length s

-- Peek and ReadableBytes show the queue.
pub peek-Holds : {b : NetworkBuffer} {s : Bytes} → Holds b s → peek b ≡ s
unfolding peek
peek-Holds {b} {s} h = rw h.layout (
    rw (drop-eq-length b.read_index h.front (s ++ h.room) h.reads)
      (take-eq-length _ s h.room (omega (arith, h.reads, h.writes))))

pub readable_bytes-Holds : {b : NetworkBuffer} {s : Bytes} → Holds b s → readable_bytes b ≡ length s
unfolding readable_bytes
readable_bytes-Holds h = omega (arith, h.reads, h.writes)

pub Holds-new_buffer : (n : ℕ) → Holds (new_buffer n) []
unfolding new_buffer
Holds-new_buffer n = record {
  front = [];
  room = replicate n 0;
  layout = refl;
  reads = refl;
  writes = refl;
}

copy_at-append :
    (k : ℕ) (xs front room : Bytes)
    → k ≡ length front
    → copy_at k xs (front ++ room) ≡ front ++ (xs ++ drop (length xs) room)
unfolding copy_at
copy_at-append k xs front room h =
    rw
      (
        take-eq-length k front room h,
        drop_past (k + length xs) (length xs) front room (omega arith),
      )
      refl

-- A write into the room behind the queue.
Holds-copy_at :
    {b : NetworkBuffer} {s : Bytes} (xs : Bytes) (h : Holds b s)
    → Holds
        (record b {
          buffer = copy_at b.write_index xs b.buffer;
          write_index = b.write_index + length xs;
        })
        (s ++ xs)
Holds-copy_at {b} {s} xs h = record {
  front = h.front;
  room = drop (length xs) h.room;
  layout =
      ap (copy_at b.write_index xs) (h.layout ∙ sym (append_assoc h.front s h.room))
      ∙ copy_at-append b.write_index xs (h.front ++ s) h.room
          (omega (arith, h.writes, length-append h.front s))
      ∙ simp append_assoc;
  reads = h.reads;
  writes = omega (arith, h.writes, length-append s xs);
}

length-layout :
    {b : NetworkBuffer} {s : Bytes} (h : Holds b s)
    → length b.buffer ≡ b.write_index + length h.room
length-layout {b} {s} h =
    ap length h.layout
    ∙ omega (arith, length-append h.front (s ++ h.room), length-append s h.room, h.writes)

-- The two branches of MakeSpace.
grown-Holds :
    (n : ℕ) {b : NetworkBuffer} {s : Bytes}
    → Holds b s
    → length b.buffer ≤ n
    → Holds (record b { buffer = resize n b.buffer }) s
unfolding resize
grown-Holds n {b} {s} h fits = record {
  front = h.front;
  room = h.room ++ replicate (n - length b.buffer) 0;
  layout =
      ap (λ t. t ++ replicate (n - length b.buffer) 0) (take-all n b.buffer fits ∙ h.layout)
      ∙ simp append_assoc;
  reads = h.reads;
  writes = h.writes;
}

moved-Holds :
    {b : NetworkBuffer} {s : Bytes}
    → Holds b s
    → Holds
        (record {
          buffer = peek b ++ drop (readable_bytes b) b.buffer;
          read_index = 0;
          write_index = readable_bytes b;
        })
        s
moved-Holds {b} {s} h = record {
  front = [];
  room = drop (readable_bytes b) b.buffer;
  layout = rw (peek-Holds h) refl;
  reads = refl;
  writes = omega (arith, readable_bytes-Holds h);
}

-- MakeSpace keeps the queue and makes room for `len` bytes.
make_space-Holds :
    (len : ℕ) {b : NetworkBuffer} {s : Bytes}
    → Holds b s
    → Holds (make_space len b) s × (len ≤ writable_bytes (make_space len b))
unfolding make_space writable_bytes
make_space-Holds len {b} {s} h = elim (Bool-cases (ltb (writable_bytes b + b.read_index) len)) [
  | inl small ↦ rw small (
    grown-Holds (b.write_index + len) h (omega (arith, length-layout h, ltb→lt _ _ small)),
    omega (arith, length-resize (b.write_index + len) b.buffer),
  )
  | inr large ↦ rw large (
    moved-Holds h,
    omega (
      arith,
      length-append (peek b) (drop (readable_bytes b) b.buffer),
      ap length (peek-Holds h),
      length-drop (readable_bytes b) b.buffer,
      readable_bytes-Holds h,
      length-layout h,
      h.reads,
      h.writes,
      ltb-false→le _ _ large,
    ),
  )
]
  where
    ltb-false→le : (x y : ℕ) → ltb x y ≡ false → y ≤ x
    ltb-false→le x y e = ground arith

    length-resize : (n : ℕ) (t : Bytes) → n ≤ length (resize n t)
    length-resize n t = omega (
      arith,
      length-append (take n t) (replicate (n - length t) 0),
      length-take n t,
      length-replicate {A = ℕ} (n - length t) 0,
    )

ensure-Holds :
    (len : ℕ) {b : NetworkBuffer} {s : Bytes}
    → Holds b s
    → Holds (ensure_writable_bytes len b) s × (len ≤ writable_bytes (ensure_writable_bytes len b))
unfolding ensure_writable_bytes
ensure-Holds len {b} h = elim (Bool-cases (ltb (writable_bytes b) len)) [
  | inl few ↦ rw few (make_space-Holds len h)
  | inr enough ↦ rw enough (h, ground arith)
]

-- On a buffer that holds a queue of bytes, Append puts the bytes behind it, and the place that it
-- writes to lies in the vector.
pub append-Holds :
    (xs : Bytes) {b : NetworkBuffer} {s : Bytes}
    → Holds b s
    → Holds (append b xs) (s ++ xs)
      × ((ensure_writable_bytes (length xs) b).write_index + length xs
          ≤ length (ensure_writable_bytes (length xs) b).buffer)
unfolding append writable_bytes
append-Holds xs h =
    let (h', room) = ensure-Holds (length xs) h in
    (Holds-copy_at xs h', omega (arith, length-layout h'))

-- On a buffer that holds a queue of bytes, Retrieve takes bytes from the front, and empties the
-- queue where it has no more.
pub retrieve-Holds :
    (n : ℕ) {b : NetworkBuffer} {s : Bytes} → Holds b s → Holds (retrieve n b) (drop n s)
unfolding retrieve retrieve_all
retrieve-Holds n {b} {s} h = elim (Bool-cases (ltb n (readable_bytes b))) [
  | inl part ↦ rw part (record {
    front = h.front ++ take n s;
    room = h.room;
    layout =
        h.layout
        ∙ ap (λ t. h.front ++ (t ++ h.room)) (sym (take-append-drop n s))
        ∙ simp append_assoc;
    reads = omega (
      arith,
      h.reads,
      length-append h.front (take n s),
      length-take n s,
      ltb→lt _ _ part,
      readable_bytes-Holds h,
    );
    writes = omega (
      arith,
      h.writes,
      length-append h.front (take n s),
      length-take n s,
      length-drop n s,
      ltb→lt _ _ part,
      readable_bytes-Holds h,
    );
  })
  | inr all ↦
      rw (all, drop-all n s (ground (arith, readable_bytes-Holds h)))
        (record { front = []; room = b.buffer; layout = refl; reads = refl; writes = refl })
]

-- On a buffer that holds a queue of bytes, ReadFromFd puts what readv received behind it, in one
-- piece or over the extra buffer.
pub read_from_fd-Holds :
    (received : Bytes) {b : NetworkBuffer} {s : Bytes}
    → Holds b s
    → Holds (read_from_fd b (some received)) (s ++ received)
unfolding read_from_fd
read_from_fd-Holds received {b} {s} h =
    elim (Bool-cases (leb (length received) (writable_bytes b))) [
      | inl fits ↦
          rw (fits, take-all (writable_bytes b) received (leb→le _ _ fits))
            (Holds-copy_at received h)
      | inr over ↦
          rw over (
            subst (Holds _) whole (append-Holds (drop (writable_bytes b) received) (filled over)).0)
    ]
  where
    part : Bytes
    part = take (writable_bytes b) received

    whole : (s ++ part) ++ drop (writable_bytes b) received ≡ s ++ received
    whole =
        append_assoc s part (drop (writable_bytes b) received)
        ∙ ap (λ t. s ++ t) (take-append-drop (writable_bytes b) received)

    full :
        leb (length received) (writable_bytes b) ≡ false
        → b.write_index + length part ≡ length b.buffer
    full over =
        unfold writable_bytes in
        ground (arith, length-take (length b.buffer - b.write_index) received, length-layout h)

    filled :
        leb (length received) (writable_bytes b) ≡ false
        → Holds
            (record (record b { buffer = copy_at b.write_index part b.buffer }) {
              write_index = length b.buffer;
            })
            (s ++ part)
    filled over =
        subst
          (λ k.
            Holds
              (record (record b { buffer = copy_at b.write_index part b.buffer }) {
                write_index = k;
              })
              (s ++ part))
          (full over) (Holds-copy_at part h)
