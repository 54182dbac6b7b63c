-- ===== src/Transport/Mirror.antt =====
-- The consumer's stream consumers as a mirror of the producer's stream producers.
use otel_arrow_adapter.Base.{
  ℕ, suc, ◌<◌, ◌≡◌, refl, sym, subst, ◌≢◌, inl, inr, Bool, true, false, none, some, List, [], ◌∷◌,
  arith, ◌==◌, Bool-cases, Str, str_eq, str_eq→eq, ok,
}
use otel_arrow_adapter.Transport.Ipc.{Ipc, IpcLaws}
use otel_arrow_adapter.Transport.Producer.{
  StreamProducer, find_producer, put_producer, close_producers,
}
use otel_arrow_adapter.Transport.Consumer.{
  StreamConsumer, find_consumer, put_consumer, release_consumers,
}

module _ (ipc : Ipc) (laws : IpcLaws ipc) (schema_of : Str → ipc.Schema) where
  -- A stream producer under its schema id, and the stream consumer of its sub-stream.
  pub record Slot : Type 0 where
    pub key : Str
    pub sp : StreamProducer ipc
    pub sc : StreamConsumer ipc

  abbrev pub id_of : Slot → ℕ
  id_of s = s.sp.sub_stream_id

  unfoldable pub producers_of : List Slot → List (Str × StreamProducer ipc)
  producers_of [] = []
  producers_of (s ∷ ls) = (s.key, s.sp) ∷ producers_of ls

  unfoldable pub consumers_of : List Slot → List (ℕ × StreamConsumer ipc)
  consumers_of [] = []
  consumers_of (s ∷ ls) = (id_of s, s.sc) ∷ consumers_of ls

  -- The consumer follows the producer. `schema_of` is the schema that a schema id names.
  pub record Follows (s : Slot) : Type 0 where
    pub same_type : s.sp.payload_type ≡ s.sc.payload_type
    pub flushed : s.sp.output ≡ []
    pub writer : ipc.Writer
    pub has_writer : s.sp.ipc_writer ≡ some writer
    pub reader : ipc.Reader
    pub has_reader : s.sc.ipc_reader ≡ some reader
    pub follows : laws.Follows (schema_of s.key) writer reader

  pub data Other (n : ℕ) : List Slot → Type 0 where
    no_other : Other n []
    next_other : {s : Slot} → {ls : List Slot} → id_of s ≢ n → Other n ls → Other n (s ∷ ls)

  -- All consumers follow, and the ids are distinct and below the next one.
  pub data Linked (n : ℕ) : List Slot → Type 0 where
    nothing_open : Linked n []
    also :
        {s : Slot}
        → {ls : List Slot} → Follows s
        → id_of s < n
        → Other (id_of s) ls
        → Linked n ls
        → Linked n (s ∷ ls)

  pub Other-next : (n : ℕ) (ls : List Slot) → Linked n ls → Other n ls
  Other-next n [] nothing_open = no_other
  Other-next n (s ∷ ls) (also f lt o l) = next_other (omega arith) (Other-next n ls l)

  pub Linked-grow : (n : ℕ) (ls : List Slot) → Linked n ls → Linked (suc n) ls
  Linked-grow n [] nothing_open = nothing_open
  Linked-grow n (s ∷ ls) (also f lt o l) = also f (omega arith) o (Linked-grow n ls l)

  pub find_consumer-none :
      (n : ℕ) (ls : List Slot) → Other n ls → find_consumer ipc n (consumers_of ls) ≡ none
  unfolding find_consumer consumers_of
  find_consumer-none n [] no_other = refl
  find_consumer-none n (s ∷ ls) (next_other ne rest) = ground (arith, find_consumer-none n ls rest)

  -- The lists after a slot was put in.
  pub record Put (n : ℕ) (s : Slot) (ls : List Slot) : Type 0 where
    pub slots : List Slot
    pub producers : producers_of slots ≡ put_producer ipc s.key s.sp (producers_of ls)
    pub consumers : consumers_of slots ≡ put_consumer ipc (id_of s) s.sc (consumers_of ls)
    pub linked : Linked n slots
    pub others : (m : ℕ) → Other m ls → m ≢ id_of s → Other m slots

  Other-head : (m : ℕ) (s : Slot) (ls : List Slot) → Other m (s ∷ ls) → id_of s ≢ m
  Other-head m s ls (next_other ne o) = ne

  Other-tail : (m : ℕ) (s : Slot) (ls : List Slot) → Other m (s ∷ ls) → Other m ls
  Other-tail m s ls (next_other ne o) = o

  -- Putting a slot in behind one of another schema id and another sub-stream.
  Put-behind :
      (n : ℕ) (s s0 : Slot) (ls : List Slot)
      → str_eq s0.key s.key ≡ false
      → id_of s0 ≢ id_of s
      → Follows s0
      → id_of s0 < n
      → Other (id_of s0) ls
      → Put n s ls
      → Put n s (s0 ∷ ls)
  unfolding producers_of consumers_of put_producer put_consumer
  Put-behind n s s0 ls differ ne f0 lt o rest = record {
    slots = s0 ∷ rest.slots;
    producers = ground (arith, rest.producers);
    consumers = ground (arith, rest.consumers);
    linked = also f0 lt (rest.others (id_of s0) o ne) rest.linked;
    others =
        λ m o' ne'. next_other (Other-head m s0 ls o') (rest.others m (Other-tail m s0 ls o') ne');
  }

  -- A slot whose schema id and sub-stream id are new.
  pub Put-new :
      (n : ℕ) (s : Slot) (ls : List Slot)
      → Follows s
      → id_of s ≡ n
      → Linked n ls
      → find_producer ipc s.key (producers_of ls) ≡ none
      → Put (suc n) s ls
  unfolding producers_of consumers_of find_producer put_producer put_consumer
  Put-new n s [] f here nothing_open absent = record {
    slots = s ∷ [];
    producers = refl;
    consumers = refl;
    linked = also f (omega arith) no_other nothing_open;
    others = λ m o ne. next_other (λ same. ne (sym same)) no_other;
  }
  Put-new n s (s0 ∷ ls) f here (also f0 lt o l) absent =
      Put-behind (suc n) s s0 ls (ground arith) (omega arith) f0 (omega arith) o
        (Put-new n s ls f here l (ground arith))

  -- What is found for a schema id, and what may be put in its place.
  pub record Found (n : ℕ) (key : Str) (sp : StreamProducer ipc) (ls : List Slot) : Type 0 where
    pub sc : StreamConsumer ipc
    pub found : find_consumer ipc sp.sub_stream_id (consumers_of ls) ≡ some sc
    pub follows : Follows (record { key = key; sp = sp; sc = sc })
    pub replace : (s : Slot) → s.key ≡ key → id_of s ≡ sp.sub_stream_id → Follows s → Put n s ls
    pub elsewhere : (m : ℕ) → Other m ls → m ≢ sp.sub_stream_id

  Found-here :
      (n : ℕ) (key : Str) (s : Slot) (ls : List Slot)
      → str_eq s.key key ≡ true
      → Linked n (s ∷ ls)
      → Found n key s.sp (s ∷ ls)
  unfolding producers_of consumers_of find_consumer put_producer put_consumer
  Found-here n key s ls same (also f lt o l) = record {
    sc = s.sc;
    found = ground arith;
    follows =
        subst (λ k. Follows (record { key = k; sp = s.sp; sc = s.sc })) (str_eq→eq s.key key same)
          f;
    replace = λ s' k i f'. record {
      slots = s' ∷ ls;
      producers = ground arith;
      consumers = ground arith;
      linked = also f' (omega arith) (subst (λ m. Other m ls) (sym i) o) l;
      others = λ m o' ne. next_other (λ e. ne (sym e)) (Other-tail m s ls o');
    };
    elsewhere = λ m o' same_id. Other-head m s ls o' (sym same_id);
  }

  Found-behind :
      (n : ℕ) (key : Str) (sp : StreamProducer ipc) (s0 : Slot) (ls : List Slot)
      → str_eq s0.key key ≡ false
      → Linked n (s0 ∷ ls)
      → Found n key sp ls
      → Found n key sp (s0 ∷ ls)
  unfolding producers_of consumers_of find_consumer
  Found-behind n key sp s0 ls differ (also f0 lt o l) rest =
      let ne : id_of s0 ≢ sp.sub_stream_id = rest.elsewhere (id_of s0) o in
      record {
        sc = rest.sc;
        found = ground (arith, rest.found);
        follows = rest.follows;
        replace = λ s k i f.
            Put-behind n s s0 ls (ground (arith, differ, k)) (omega (arith, ne, i)) f0 lt o
              (rest.replace s k i f);
        elsewhere = λ m o'. rest.elsewhere m (Other-tail m s0 ls o');
      }

  pub find_producer-Found :
      (n : ℕ) (key : Str) (sp : StreamProducer ipc) (ls : List Slot)
      → Linked n ls
      → find_producer ipc key (producers_of ls) ≡ some sp
      → Found n key sp ls
  unfolding producers_of find_producer
  find_producer-Found n key sp [] l h = ground arith
  find_producer-Found n key sp (s ∷ ls) (also f lt o l) h =
      let rest : find_producer ipc key (producers_of ls) ≡ some sp → Found n key sp ls =
        find_producer-Found n key sp ls l in
      elim (Bool-cases (str_eq s.key key)) [
        | inl same ↦
            subst (λ x. Found n key x (s ∷ ls)) (ground arith)
              (Found-here n key s ls same (also f lt o l))
        | inr differ ↦ Found-behind n key sp s ls differ (also f lt o l) (rest (ground arith))
      ]

  -- The cleanup of a payload type takes the same sub-streams from both sides.
  pub record Closed (n type : ℕ) (ls : List Slot) : Type 0 where
    pub slots : List Slot
    pub count : ℕ
    pub producers : close_producers ipc type (producers_of ls) ≡ (true, producers_of slots, count)
    pub consumers : release_consumers ipc type (consumers_of ls) ≡ ok (consumers_of slots)
    pub linked : Linked n slots
    pub others : (m : ℕ) → Other m ls → Other m slots
    pub absent :
        (key : Str)
        → find_producer ipc key (producers_of ls) ≡ none
        → find_producer ipc key (producers_of slots) ≡ none

  Closed-behind :
      (n type : ℕ) (s : Slot) (ls : List Slot)
      → Linked n (s ∷ ls)
      → Closed n type ls
      → (same : Bool) → (s.sp.payload_type == type) ≡ same
      → Closed n type (s ∷ ls)
  unfolding producers_of consumers_of close_producers release_consumers find_producer
  Closed-behind n type s ls (also f lt o l) rest true same = record {
    slots = rest.slots;
    count = suc rest.count;
    producers = ground (arith, rest.producers, f.has_writer, laws.closes f.writer);
    consumers = ground (arith, rest.consumers, f.has_reader, f.same_type);
    linked = rest.linked;
    others = λ m o'. rest.others m (Other-tail m s ls o');
    absent = λ key h. rest.absent key (ground arith);
  }
  Closed-behind n type s ls (also f lt o l) rest false differ = record {
    slots = s ∷ rest.slots;
    count = rest.count;
    producers = ground (arith, rest.producers);
    consumers = ground (arith, rest.consumers, f.same_type);
    linked = also f lt (rest.others (id_of s) o) rest.linked;
    others = λ m o'. next_other (Other-head m s ls o') (rest.others m (Other-tail m s ls o'));
    absent = λ key h. ground (arith, rest.absent key);
  }

  pub close_producers-Closed : (n type : ℕ) (ls : List Slot) → Linked n ls → Closed n type ls
  unfolding producers_of consumers_of close_producers release_consumers find_producer
  close_producers-Closed n type [] l = record {
    slots = [];
    count = 0;
    producers = refl;
    consumers = refl;
    linked = nothing_open;
    others = λ m o. no_other;
    absent = λ key h. refl;
  }
  close_producers-Closed n type (s ∷ ls) (also f lt o l) =
      Closed-behind n type s ls (also f lt o l) (close_producers-Closed n type ls l)
        (s.sp.payload_type == type) refl
