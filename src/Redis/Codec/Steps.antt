-- ===== src/Redis/Codec/Steps.antt =====
-- The decoder's rounds: what the state and the stack have to do with each other, and that the loop ends.
use meliproxy.Redis.Codec.{
  RespValue, null, simple_string, bulk_string, error, integer, array, State, Pending, Decoder,
  Round, goes, protocol_error, length_error, undefined, value_root_start, value_start,
  integer_start, integer_digits, integer_lf, bulk_string_body, cr, lf, simple_string_body,
  value_complete, start_value, start_integer, take_digit, integer_known, end_integer, take_body,
  expect, take_char, in_array, complete_value, sized_array, append_front, Values, whole_integer,
  append, sized_string,
}
use meliproxy.Shared.{
  Bytes, ℕ, ◌∷◌, length, ◌*◌, arith, ◌<◌, List, ◌+◌, All, [], Bool, length-drop, if_cases, suc, min,
  ◌==◌, ◌≤◌,
}

-- The value is a string; it is announced by a number; it is an array.
abbrev pub HoldsString : RespValue → Type 0
HoldsString (simple_string s) = Unit
HoldsString (bulk_string s) = Unit
HoldsString (error s) = Unit
HoldsString null = ⊥
HoldsString (integer n) = ⊥
HoldsString (array vs) = ⊥

abbrev pub HoldsSized : RespValue → Type 0
HoldsSized (bulk_string s) = Unit
HoldsSized (integer n) = Unit
HoldsSized (array vs) = Unit
HoldsSized (simple_string s) = ⊥
HoldsSized (error s) = ⊥
HoldsSized null = ⊥

abbrev pub HoldsArray : RespValue → Type 0
HoldsArray (array vs) = Unit
HoldsArray (bulk_string s) = ⊥
HoldsArray (integer n) = ⊥
HoldsArray (simple_string s) = ⊥
HoldsArray (error s) = ⊥
HoldsArray null = ⊥

-- What the value at the front is in a state.
abbrev pub FrontIn : State → RespValue → Type 0
FrontIn value_root_start v = ⊥
FrontIn value_start v = Unit
FrontIn integer_start v = HoldsSized v
FrontIn integer_digits v = HoldsSized v
FrontIn integer_lf v = HoldsSized v
FrontIn bulk_string_body v = HoldsString v
FrontIn cr v = Unit
FrontIn lf v = Unit
FrontIn simple_string_body v = HoldsString v
FrontIn value_complete v = Unit

abbrev pub Waits : State → Type 0
Waits value_root_start = Unit
Waits value_start = ⊥
Waits integer_start = ⊥
Waits integer_digits = ⊥
Waits integer_lf = ⊥
Waits bulk_string_body = ⊥
Waits cr = ⊥
Waits lf = ⊥
Waits simple_string_body = ⊥
Waits value_complete = ⊥

-- The stack is empty only between values. Behind the value at its front it holds arrays.
abbrev pub StackIn : State → List Pending → Type 0
StackIn s [] = Waits s
StackIn s (p ∷ ps) = FrontIn s p.value × All (λ (q : Pending). HoldsArray q.value) ps

abbrev pub IsValid : Decoder → Type 0
IsValid d = StackIn d.state d.stack

abbrev pub weight : State → ℕ
weight value_root_start = 2
weight value_start = 0
weight integer_start = 1
weight integer_digits = 0
weight integer_lf = 0
weight bulk_string_body = 1
weight cr = 0
weight lf = 0
weight simple_string_body = 0
weight value_complete = 2

-- What every round makes smaller.
abbrev pub measure : Decoder → Bytes → ℕ
measure d buffer = 4 * length buffer + length d.stack + weight d.state

abbrev pub IsProgress : ℕ → Round → Type 0
IsProgress n (goes d out rest) = IsValid d × (measure d rest < n)
IsProgress n protocol_error = Unit
IsProgress n length_error = Unit
IsProgress n undefined = ⊥

abbrev pub with : State → ℕ → ℕ → Bool → List Pending → Decoder
with s z i g ps = record { max_size = z; state = s; pending_integer = i; negative = g; stack = ps }

pub start_value-IsProgress :
    (z i : ℕ) (g : Bool) (p : Pending) (ps : List Pending) (c : ℕ) (rest : Bytes)
    → StackIn value_start (p ∷ ps)
    → IsProgress
        (measure (with value_start z i g (p ∷ ps)) (c ∷ rest))
        (start_value (with value_start z i g (p ∷ ps)) c rest)
unfolding start_value
start_value-IsProgress z i g p ps c rest (h, a) = ground arith

pub start_integer-IsProgress :
    (z i : ℕ) (g : Bool) (p : Pending) (ps : List Pending) (c : ℕ) (rest : Bytes)
    → StackIn integer_start (p ∷ ps)
    → IsProgress
        (measure (with integer_start z i g (p ∷ ps)) (c ∷ rest))
        (start_integer (with integer_start z i g (p ∷ ps)) c rest)
unfolding start_integer
start_integer-IsProgress z i g p ps c rest h = ground arith

pub take_digit-IsProgress :
    (z i : ℕ) (g : Bool) (p : Pending) (ps : List Pending) (c : ℕ) (rest : Bytes)
    → StackIn integer_digits (p ∷ ps)
    → IsProgress
        (measure (with integer_digits z i g (p ∷ ps)) (c ∷ rest))
        (take_digit (with integer_digits z i g (p ∷ ps)) c rest)
unfolding take_digit
take_digit-IsProgress z i g p ps c rest h = ground arith

-- The rest of case IntegerLF, for every kind of value that a number announces.
pub integer_known-IsProgress :
    (z i : ℕ) (g : Bool) (v : RespValue) (e : ℕ) (ps : List Pending) (c : ℕ) (rest : Bytes)
    → HoldsSized v
    → All (λ (q : Pending). HoldsArray q.value) ps
    → IsProgress
        (measure
          (with integer_lf z i g (record { value = v; current_array_element = e } ∷ ps))
          (c ∷ rest))
        (integer_known
          (with integer_lf z i g (record { value = v; current_array_element = e } ∷ ps))
          rest)
unfolding integer_known sized_array whole_integer sized_string
integer_known-IsProgress z i g (array vs) e ps c rest h a = ground arith
integer_known-IsProgress z i g (integer n) e ps c rest h a = ground arith
integer_known-IsProgress z i g (bulk_string s) e ps c rest h a = ground arith
integer_known-IsProgress z i g (simple_string s) e ps c rest h a = absurd h
integer_known-IsProgress z i g (error s) e ps c rest h a = absurd h
integer_known-IsProgress z i g null e ps c rest h a = absurd h

pub end_integer-IsProgress :
    (z i : ℕ) (g : Bool) (p : Pending) (ps : List Pending) (c : ℕ) (rest : Bytes)
    → StackIn integer_lf (p ∷ ps)
    → IsProgress
        (measure (with integer_lf z i g (p ∷ ps)) (c ∷ rest))
        (end_integer (with integer_lf z i g (p ∷ ps)) c rest)
unfolding end_integer
end_integer-IsProgress z i g p ps c rest (h, a) =
    if_cases (IsProgress (measure (with integer_lf z i g (p ∷ ps)) (c ∷ rest))) (c == 10) _ _
      (λ e. integer_known-IsProgress z i g p.value p.current_array_element ps c rest h a) (λ e. tt)

pub take_body-IsProgress :
    (z i : ℕ) (g : Bool) (v : RespValue) (e : ℕ) (ps : List Pending) (c : ℕ) (rest : Bytes)
    → HoldsString v
    → All (λ (q : Pending). HoldsArray q.value) ps
    → IsProgress
        (measure
          (with bulk_string_body z i g (record { value = v; current_array_element = e } ∷ ps))
          (c ∷ rest))
        (take_body
          (with bulk_string_body z i g (record { value = v; current_array_element = e } ∷ ps))
          (c ∷ rest))
unfolding take_body append_front append
take_body-IsProgress z i g (bulk_string s) e ps c rest h a =
    ground (arith, length-drop (min i (suc (length rest))) (c ∷ rest))
take_body-IsProgress z i g (simple_string s) e ps c rest h a =
    ground (arith, length-drop (min i (suc (length rest))) (c ∷ rest))
take_body-IsProgress z i g (error s) e ps c rest h a =
    ground (arith, length-drop (min i (suc (length rest))) (c ∷ rest))
take_body-IsProgress z i g (array vs) e ps c rest h a = absurd h
take_body-IsProgress z i g (integer n) e ps c rest h a = absurd h
take_body-IsProgress z i g null e ps c rest h a = absurd h

pub expect-IsProgress :
    (byte : ℕ) (s next : State) (z i : ℕ) (g : Bool) (p : Pending) (ps : List Pending) (c : ℕ)
    (rest : Bytes)
    → FrontIn next p.value
    → weight next ≤ 2
    → All (λ (q : Pending). HoldsArray q.value) ps
    → IsProgress
        (measure (with s z i g (p ∷ ps)) (c ∷ rest))
        (expect byte next (with s z i g (p ∷ ps)) c rest)
unfolding expect
expect-IsProgress byte s next z i g p ps c rest f w a =
    if_cases (IsProgress (measure (with s z i g (p ∷ ps)) (c ∷ rest))) (c == byte) _ _
      (λ e. ((f, a), omega arith)) (λ e. tt)

pub take_char-IsProgress :
    (z i : ℕ) (g : Bool) (v : RespValue) (e : ℕ) (ps : List Pending) (c : ℕ) (rest : Bytes)
    → HoldsString v
    → All (λ (q : Pending). HoldsArray q.value) ps
    → IsProgress
        (measure
          (with simple_string_body z i g (record { value = v; current_array_element = e } ∷ ps))
          (c ∷ rest))
        (take_char
          (with simple_string_body z i g (record { value = v; current_array_element = e } ∷ ps))
          c
          rest)
unfolding take_char append_front append
take_char-IsProgress z i g (bulk_string s) e ps c rest h a = ground arith
take_char-IsProgress z i g (simple_string s) e ps c rest h a = ground arith
take_char-IsProgress z i g (error s) e ps c rest h a = ground arith
take_char-IsProgress z i g (array vs) e ps c rest h a = absurd h
take_char-IsProgress z i g (integer n) e ps c rest h a = absurd h
take_char-IsProgress z i g null e ps c rest h a = absurd h

pub in_array-IsProgress :
    (z i : ℕ) (g : Bool) (q p : Pending) (vs : Values) (ps : List Pending) (buffer : Bytes)
    → All (λ (q : Pending). HoldsArray q.value) ps
    → IsProgress
        (measure (with value_complete z i g (q ∷ p ∷ ps)) buffer)
        (in_array (with value_complete z i g (q ∷ p ∷ ps)) q.value p vs ps buffer)
unfolding in_array
in_array-IsProgress z i g q p vs ps buffer a = ground arith

pub complete_value-IsProgress :
    (z i : ℕ) (g : Bool) (qs : List Pending) (buffer : Bytes)
    → StackIn value_complete qs
    → IsProgress
        (measure (with value_complete z i g qs) buffer)
        (complete_value (with value_complete z i g qs) qs buffer)
unfolding complete_value
complete_value-IsProgress z i g [] buffer h = absurd h
complete_value-IsProgress z i g (q ∷ []) buffer h = (tt, omega arith)
complete_value-IsProgress z i g (q ∷ p ∷ ps) buffer (h, (k, a)) = behind p.value k
  where
    behind :
        (v : RespValue)
        → HoldsArray v
        → IsProgress (measure (with value_complete z i g (q ∷ p ∷ ps)) buffer) (elim v [
          | array vs ↦ in_array (with value_complete z i g (q ∷ p ∷ ps)) q.value p vs ps buffer
          | null ↦ undefined
          | simple_string s ↦ undefined
          | bulk_string s ↦ undefined
          | error s ↦ undefined
          | integer n ↦ undefined
        ])
    behind (array vs) k = in_array-IsProgress z i g q p vs ps buffer a
    behind null k = absurd k
    behind (simple_string s) k = absurd k
    behind (bulk_string s) k = absurd k
    behind (error s) k = absurd k
    behind (integer n) k = absurd k
