-- ===== src/Server/Http/Rounds.antt =====
-- One round of the loop over the configured methods (processor.go): what it writes to the table of
-- the processor.
use rupicola_go.Base.{
  Bytes, Bool, true, false, some, ◌≡◌, refl, arith, ◌==◌, bytes_eq, ==_iff, if◌then◌else◌,
}
use rupicola_go.Base.Int.{pos, pos_part, ltb_ℤ}
use rupicola_go.Base.Dict.{lookup, insert, lookup-insert}
use rupicola_go.Rpc.Value.{
  MethodType, rpc_method, streaming_method_legacy, streaming_method, unknown_method,
}
use rupicola_go.Rpc.Registry.{
  Limits, default_rpc_limits, default_streaming_limits, ByType, Processor, new_json_rpc_processor,
  add_method, update_method, execution_timeout, max_size, find_method, at, put_at, container,
  old_to_new,
}
use rupicola_go.Rpc.Registry
use rupicola_go.Method.Def.{MethodDef}
use rupicola_go.Server.Command.{RpcContext}
use rupicola_go.Server.Http.{type_of, with_timeout, with_size}

abbrev pub Entry : Type 0
Entry = Registry.MethodDef RpcContext

abbrev pub Table : Type 0
Table = Processor RpcContext

-- The name has the definition d under a type.
pub record Has (p : Table) (name : Bytes) (metype : MethodType) (d : Entry) : Type 0 where
  pub group : ByType Entry
  pub there : lookup name p.methods ≡ some group
  pub typed : at metype group ≡ some d

-- A table that differs from p in the definitions of one name.
pub record Differs (p q : Table) (name : Bytes) : Type 0 where
  pub others : (j : Bytes) → (name == j) ≡ false → lookup j q.methods ≡ lookup j p.methods
  pub limits : q.limits ≡ p.limits

at-put_at :
    (metype : MethodType) (d : Entry) (ms : ByType Entry) → at metype (put_at metype d ms) ≡ some d
at-put_at rpc_method d ms = refl
at-put_at streaming_method_legacy d ms = refl
at-put_at streaming_method d ms = refl
at-put_at unknown_method d ms = refl

-- Writing one definition.
abbrev pub written : Bytes → MethodType → Entry → Table → Table
written name metype d p = record p {
  methods = insert name (put_at metype d (container name p)) p.methods;
}

pub written-Has :
    (name : Bytes) (metype : MethodType) (d : Entry) (p : Table)
    → Has (written name metype d p) name metype d
written-Has name metype d p = record {
  group = put_at metype d (container name p);
  there = ground (
    arith,
    lookup-insert name name (put_at metype d (container name p)) p.methods,
    ==_iff name name,
  );
  typed = at-put_at metype d (container name p);
}

pub written-Differs :
    (name : Bytes) (metype : MethodType) (d : Entry) (p0 p : Table)
    → Differs p0 p name
    → Differs p0 (written name metype d p) name
written-Differs name metype d p0 p h = record {
  others = λ j n.
      ground
        (arith, lookup-insert name j (put_at metype d (container name p)) p.methods, h.others j n);
  limits = h.limits;
}

update_method-at :
    (name : Bytes) (metype : MethodType) (f : Entry → Entry) (d : Entry) (p : Table)
    → at metype (container name p) ≡ some d
    → update_method name metype f p ≡ written name metype (f d) p
unfolding update_method
update_method-at name metype f d p h = ground arith

container-at :
    (name : Bytes) (metype : MethodType) (d : Entry) (p : Table)
    → Has p name metype d
    → at metype (container name p) ≡ some d
container-at name metype d p h = ground (arith, h.there, h.typed)

-- Writing, and with it every limit that is overridden, keeps both.
pub record Wrote (p0 p : Table) (name : Bytes) (metype : MethodType) (d : Entry) : Type 0 where
  pub has : Has p name metype d
  pub differs : Differs p0 p name

update-Wrote :
    (name : Bytes) (metype : MethodType) (f : Entry → Entry) (d : Entry) (p0 p : Table)
    → Wrote p0 p name metype d
    → Wrote p0 (update_method name metype f p) name metype (f d)
update-Wrote name metype f d p0 p h =
    rw (update_method-at name metype f d p (container-at name metype d p h.has)) (record {
      has = written-Has name metype (f d) p;
      differs = written-Differs name metype (f d) p0 p h.differs;
    })

-- The definition of a configured method, and its limits: its own where they are not negative, and
-- otherwise those of its type.
abbrev pub default_limits : MethodDef → Limits
default_limits m = if m.streamed then default_streaming_limits else default_rpc_limits

abbrev pub limits_of : MethodDef → Limits
limits_of m = record {
  exec_timeout = if ltb_ℤ m.limits.exec_timeout (pos 0) then pos 0 else m.limits.exec_timeout;
  max_response =
      if ltb_ℤ m.limits.max_response (pos 0)
      then (default_limits m).max_response
      else pos_part m.limits.max_response;
}

abbrev pub with_limits : MethodDef → Table → Bytes → Table
with_limits m q name = with_size name (type_of m) m (with_timeout name (type_of m) m q)

if-Wrote :
    (b : Bool) (p0 q q' : Table) (name : Bytes) (metype : MethodType) (d d' : Entry)
    → Wrote p0 q name metype d
    → Wrote p0 q' name metype d'
    → Wrote p0 (if b then q else q') name metype (if b then d else d')
if-Wrote true p0 q q' name metype d d' h k = h
if-Wrote false p0 q q' name metype d d' h k = k

pub with_timeout-Wrote :
    (name : Bytes) (m : MethodDef) (p0 q : Table) (d : Entry)
    → Wrote p0 q name (type_of m) d
    → Wrote p0 (with_timeout name (type_of m) m q) name (type_of m) (
        if ltb_ℤ m.limits.exec_timeout (pos 0)
        then d
        else execution_timeout m.limits.exec_timeout d)
with_timeout-Wrote name m p0 q d h =
    if-Wrote _ p0 q _ name (type_of m) d _ h
      (update-Wrote name (type_of m) (execution_timeout m.limits.exec_timeout) d p0 q h)

pub with_size-Wrote :
    (name : Bytes) (m : MethodDef) (p0 q : Table) (d : Entry)
    → Wrote p0 q name (type_of m) d
    → Wrote p0 (with_size name (type_of m) m q) name (type_of m) (
        if ltb_ℤ m.limits.max_response (pos 0)
        then d
        else max_size (pos_part m.limits.max_response) d)
with_size-Wrote name m p0 q d h =
    if-Wrote _ p0 q _ name (type_of m) d _ h
      (update-Wrote name (type_of m) (max_size (pos_part m.limits.max_response)) d p0 q h)
