-- ===== src/Core/Context.antt =====
-- core/context.h and core/context.cpp: the values that actions hand on.
-- A `ContextPtr` is an `Option Context`. A class that the application derives from `Context` is
-- `plain` with the name of its type; what it stores is not looked at by the engine.
use libworkflow.Prelude.{ℕ, String, Bool, true, false, Option, none, some, length}
use libworkflow.Prelude.Key.{string_key}
use libworkflow.Prelude.Map.{Map, lookup, insert}

mutual
  pub data Context : Type 0 where
    plain : String → Context
    list_ctx : String → Contexts → Context
    skip_ctx : Context
    grouped_ctx : Fields → Context

  pub data Contexts : Type 0 where
    nil : Contexts
    cons : Context → Contexts → Contexts

  pub data Fields : Type 0 where
    end : Fields
    field : String → Context → Fields → Fields

unfoldable pub get_type : Context → String
get_type (plain t) = t
get_type (list_ctx t cs) = t
get_type skip_ctx = "SkipCtx"
get_type (grouped_ctx fs) = "GroupedCtx"

-- `dynamic_pointer_cast<SkipCtx>`
unfoldable pub is_skip : Option Context → Bool
is_skip (some skip_ctx) = true
is_skip _ = false

-- `std::vector::push_back` on the elements of a `ListCtx`
unfoldable pub push_back : Contexts → Context → Contexts
push_back nil c = cons c nil
push_back (cons d cs) c = cons d (push_back cs c)

-- `ListCtx::isEmpty`
unfoldable pub no_elements : Contexts → Bool
no_elements nil = true
no_elements (cons c cs) = false

-- `dynamic_pointer_cast<ListCtx>` that yields a list, and the list is empty.
unfoldable pub is_empty_list : Context → Bool
unfolding no_elements
is_empty_list (list_ctx t cs) = no_elements cs
is_empty_list _ = false

-- `ListCtx::add`: a null pointer is not stored.
unfoldable pub add : Contexts → Option Context → Contexts
unfolding push_back
add cs none = cs
add cs (some c) = push_back cs c

-- `GroupedCtx`: contexts under their names. It never holds a null pointer.
abbrev pub GroupedCtx : Type 0
GroupedCtx = Map String Context

unfoldable pub grouped_size : GroupedCtx → ℕ
grouped_size g = length g

unfoldable pub get_context : GroupedCtx → String → Option Context
get_context g name = lookup name g

unfoldable pub set_context : GroupedCtx → String → Option Context → GroupedCtx
set_context g name none = g
set_context g name (some c) = insert name c g
