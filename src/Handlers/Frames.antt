-- ===== src/Handlers/Frames.antt =====
-- src/utils.cc: the names of functions and of stacks that spans carry.
use opentelemetry_php_ext.Common.{
  ℕ, ◌≡◌, refl, sym, ap, ◌∙◌, Bool, false, List, [], ◌∷◌, ◌++◌, Option, none, some, Bytes, text,
  c_str, is_empty, if◌then◌else◌, append_assoc,
}
use opentelemetry_php_ext.Text.Explode.{implode}

-- A function of the engine: its name, if it has one, the name of its class, and `ZEND_ACC_STATIC`.
pub record Func : Type 0 where
  pub function_name : Option Bytes
  pub scope : Option Bytes
  pub is_static : Bool

-- `execute_data`, and on along `prev_execute_data`: a frame has a function or a null pointer.
abbrev pub Stack : Type 0
Stack = List (Option Func)

unfoldable pub find_trace_generate_class_name : Bytes → Bytes → Bool → Bytes
find_trace_generate_class_name class_name function_name is_static =
    c_str class_name ++ (if is_static then text "::" else text "->") ++ c_str function_name

abbrev pub with_scope : Bytes → Bool → Option Bytes → Bytes
unfolding find_trace_generate_class_name
with_scope function_name is_static none = c_str function_name
with_scope function_name is_static (some scope) =
    find_trace_generate_class_name scope function_name is_static

abbrev pub named : Option Bytes → Option Bytes → Bool → Bytes
named none scope is_static = []
named (some function_name) scope is_static = with_scope function_name is_static scope

unfoldable pub find_trace_add_scope_name : Func → Bytes
find_trace_add_scope_name f = named f.function_name f.scope f.is_static

-- The last steps of `find_code_stacktrace`: behind the name of the outer frames, a separator where
-- there is one, and the name of this frame.
abbrev pub join_frames : Bytes → Bytes → Bytes
join_frames outer function_name =
    if is_empty outer then function_name else outer ++ b'\\' ∷ function_name

-- A frame without a function ends the walk.
unfoldable pub find_code_stacktrace : Stack → Bytes
unfolding find_trace_add_scope_name
find_code_stacktrace [] = []
find_code_stacktrace (none ∷ callers) = []
find_code_stacktrace (some f ∷ callers) =
    join_frames (find_code_stacktrace callers) (find_trace_add_scope_name f)

-- The names of the frames up to the first that has no function, the innermost first.
abbrev pub frame_names : Stack → List Bytes
unfolding find_trace_add_scope_name
frame_names [] = []
frame_names (none ∷ callers) = []
frame_names (some f ∷ callers) = find_trace_add_scope_name f ∷ frame_names callers

abbrev pub reversed {ℓ} : {A : Type ℓ} → List A → List A
reversed [] = []
reversed (x ∷ xs) = reversed xs ++ x ∷ []

abbrev pub drop_empty : List Bytes → List Bytes
drop_empty [] = []
drop_empty ([] ∷ names) = drop_empty names
drop_empty ((c ∷ name) ∷ names) = (c ∷ name) ∷ names

implode-append :
    (x y : Bytes) (xs : List Bytes)
    → implode (text "\\") (x ∷ xs ++ y ∷ []) ≡ implode (text "\\") (x ∷ xs) ++ b'\\' ∷ y
implode-append x y [] = refl
implode-append x y (z ∷ xs) =
    ap (λ t. x ++ b'\\' ∷ t) (implode-append z y xs)
    ∙ sym (append_assoc x (b'\\' ∷ implode (text "\\") (z ∷ xs)) (b'\\' ∷ y))

implode-cons_empty :
    (c : ℕ) (x : Bytes) (xs : List Bytes) → is_empty (implode (text "\\") ((c ∷ x) ∷ xs)) ≡ false
implode-cons_empty c x [] = refl
implode-cons_empty c x (y ∷ xs) = refl

implode-drop_empty :
    (xs : List Bytes) (y : Bytes)
    → implode (text "\\") (drop_empty (xs ++ y ∷ []))
      ≡ join_frames (implode (text "\\") (drop_empty xs)) y
implode-drop_empty [] [] = refl
implode-drop_empty [] (c ∷ y) = refl
implode-drop_empty ([] ∷ xs) y = implode-drop_empty xs y
implode-drop_empty ((c ∷ x) ∷ xs) y = rw (implode-cons_empty c x xs) (implode-append (c ∷ x) y xs)

-- The stack trace is the names of the frames up to the first without a function, the outermost
-- first and the outermost empty ones left out, joined by backslashes.
pub find_code_stacktrace-implode :
    (frames : Stack)
    → find_code_stacktrace frames ≡ implode (text "\\") (drop_empty (reversed (frame_names frames)))
unfolding find_code_stacktrace
find_code_stacktrace-implode [] = refl
find_code_stacktrace-implode (none ∷ frames) = refl
find_code_stacktrace-implode (some f ∷ frames) =
    rw (find_code_stacktrace-implode frames)
      (sym (implode-drop_empty (reversed (frame_names frames)) (find_trace_add_scope_name f)))
