-- ===== src/Tree/Tool.antt =====
-- The command line tool (src/pmem/tree/TreeTool.cc). What it reads is given: the options, and the
-- files and JSON texts that they name, each with the exception that reading it throws if it does.
pub mod Laws
use pmem.Prelude.{
  ℕ, Bool, true, false, Option, none, some, List, [], ◌∷◌, ◌++◌, String, if◌then◌else◌,
}
use pmem.Prelude.Result.{Error, assertion_failed, Result, ok, err}
use pmem.Oid.{Oid}
use pmem.Memory.Objects.{PersistentPool, State}
use pmem.Memory.Access.{M, pure, throw, lift, continue, ◌>>=◌, ◌>>◌}
use pmem.Memory.Pmemobj.{Pmemobj}
use pmem.Ptr.Pointer.{get}
use pmem.Pool.Files.{Files}
use pmem.Pool.PersistentPool.{destroy}
use pmem.Tree.Schema.{StringDict, Json, TreeSchema, same}
use pmem.Tree.Node.{buffer_type, node_at, leaf}
use pmem.Tree.Root.{
  root_type, this_root, valid, as_buffer, text_of, wrap, add, lookup, print, create_tree_pool,
  open_tree_pool, tree_root,
}

-- A parsed value: a map, with the conversion of each member to a string, or another value.
pub data Value : Type 0 where
  map_value : List (String × Result String) → Value
  other_value : Value

-- A request of a request file: its members as the tool asks for them.
pub record Request : Type 0 where
  pub operation : Result String
  pub data_text : Result (List ℕ)
  pub key : Value

-- `requests` has the list in the request file, and what the parser reads behind it; `at_end` is what
-- it throws at the end of the text. A text that is not given is none.
pub record CmdArgs : Type 0 where
  pub path : String
  pub pool_size : ℕ
  pub create : Bool
  pub insert : Bool
  pub print_tree : Bool
  pub schema : Result TreeSchema
  pub key : Result Value
  pub blob : Result (List ℕ)
  pub lookup_key : Option (Result Value)
  pub requests : Option (Result (List (Result Request) × List (Result Value)))
  pub at_end : Error

-- What the tool writes to the log.
pub data Line : Type 0 where
  valid_line : Bool → Line
  tree_lines : List String → Line
  matching_line : Line
  data_line : List ℕ → Line

-- The loop of `value_to_string_dict`. The keys of a map are different.
unfoldable pub read_dict : List (String × Result String) → Result StringDict
read_dict [] = ok []
read_dict ((k, err e) ∷ members) = err e
read_dict ((k, ok v) ∷ members) = elim (read_dict members) [
  | ok rest ↦ ok ((k, v) ∷ rest)
  | err e ↦ err e
]

-- `value_to_string_dict`
unfoldable pub value_to_string_dict : Value → Result StringDict
unfolding read_dict
value_to_string_dict (map_value members) = read_dict members
value_to_string_dict other_value = err assertion_failed

-- `parser.parse()`, with what is left of the text.
abbrev pub next_value : Error → List (Result Value) → Result Value × List (Result Value)
next_value at_end [] = (err at_end, [])
next_value at_end (v ∷ left) = (v, left)

abbrev leave : {A B : Type 0} → M B → Result A × State → Result A × State
leave destructor (ok a, t) = continue (destructor t) (λ b. pure a)
leave destructor (err e, t) = (err e, (destructor t).1)

-- The destructor of a local runs also when an exception leaves the block.
abbrev pub scoped : {A B : Type 0} → M A → M B → M A
scoped body destructor s = leave destructor (body s)

module _ (lib : Pmemobj) (files : Files) (fits : String → Bool) (depth : ℕ) where
  -- The loop over the nodes that a lookup has given.
  unfoldable pub show_data : List Oid → M (List Line)
  unfolding node_at get as_buffer
  show_data [] = pure []
  show_data (c ∷ nodes) =
      let rest = show_data nodes in
      do
        n ← node_at lib c
        here ←
            if leaf n
            then (do
              o ← get lib buffer_type n.payload
              b ← as_buffer o.content
              text ← text_of b
              pure (data_line text ∷ []))
            else pure []
        lines ← rest
        pure (here ++ lines)

  -- A lookup of a key that was parsed.
  unfoldable pub show_matches : Oid → Value → M (List Line)
  unfolding value_to_string_dict show_data
  show_matches root v = do
    key ← lift (value_to_string_dict v)
    nodes ← lookup lib depth fits root key
    lines ← show_data nodes
    pure (matching_line ∷ lines)

  -- The loop over the requests. The key of an insertion is the next value of the text, not the
  -- request's own.
  unfoldable pub run_requests :
      TreeSchema → Oid → Error → List (Result Request) → List (Result Value) → M (List Line)
  unfolding value_to_string_dict show_matches
  run_requests schema root at_end [] left = pure []
  run_requests schema root at_end (err e ∷ requests) left = throw e
  run_requests schema root at_end (ok request ∷ requests) left =
      let after_insert = run_requests schema root at_end requests (next_value at_end left).1 in
      let after_other = run_requests schema root at_end requests left in
      do
        op ← lift request.operation
        if same op "insert"
            then (do
              v ← lift (next_value at_end left).0
              key ← lift (value_to_string_dict v)
              blob ← lift request.data_text
              add lib fits schema root key blob
              after_insert)
            else if same op "lookup"
            then (do
              shown ← show_matches root request.key
              lines ← after_other
              pure (shown ++ lines))
            else after_other

  -- The insertion, the printing and the lookup that the options ask for.
  unfoldable pub run_insert : TreeSchema → Oid → CmdArgs → M (Unit {0})
  unfolding value_to_string_dict
  run_insert schema root args =
      if args.insert
      then (do
        v ← lift args.key
        key ← lift (value_to_string_dict v)
        blob ← lift args.blob
        add lib fits schema root key blob)
      else pure tt

  unfoldable pub run_print : (ℕ → String) → Oid → CmdArgs → M (List Line)
  run_print bytes root args =
      if args.print_tree
      then (do text ← print lib bytes depth root; pure (tree_lines text ∷ []))
      else pure []

  unfoldable pub run_lookup : Oid → Option (Result Value) → M (List Line)
  unfolding show_matches
  run_lookup root none = pure []
  run_lookup root (some parsed) = do v ← lift parsed; show_matches root v

  unfoldable pub run_file : TreeSchema → Oid → CmdArgs → M (List Line)
  unfolding run_requests
  run_file schema root args = elim args.requests [
    | none ↦ pure []
    | some parsed ↦ (do text ← lift parsed; run_requests schema root args.at_end text.0 text.1)
  ]

  -- What is done with the pool.
  unfoldable pub use_pool : Json → (ℕ → String) → CmdArgs → PersistentPool → M (List Line)
  unfolding run_insert run_print run_lookup run_file
  use_pool json bytes args pool = do
    root ← tree_root files pool
    get lib root_type root
    r ← this_root root
    schema ← wrap lib json root
    run_insert schema root args
    printed ← run_print bytes root args
    found ← run_lookup root args.lookup_key
    shown ← run_file schema root args
    pure (valid_line (valid r) ∷ printed ++ found ++ shown)

  unfoldable pub open_or_create : ℕ → Json → CmdArgs → M PersistentPool
  open_or_create min_pool json args =
      if args.create
      then (do
        schema ← lift args.schema
        create_tree_pool lib files min_pool json args.path args.pool_size schema)
      else open_tree_pool files args.path

  -- `run`, with the pool in a scoped pointer
  unfoldable pub run : ℕ → Json → (ℕ → String) → CmdArgs → M (List Line)
  unfolding open_or_create use_pool
  run min_pool json bytes args = do
    pool ← open_or_create min_pool json args
    scoped (use_pool json bytes args pool) (destroy files pool)
