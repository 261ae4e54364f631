-- ===== src/Pipe/Flags.antt =====
-- Proofs about the flags of the builder, against options that are kept apart.
use Prim.Native.Nat.{bit_and, bit_or}
use aiocp.Prelude.{
  ℕ, ◌≡◌, refl, ap, ◌∙◌, Bool, true, false, List, [], ◌∷◌, ltb, if◌then◌else◌, arith,
}
use aiocp.Io.{Outcome, ok, err, panic, and_then}
use aiocp.Pipe.{
  PipeFlags, PipeMode, byte, message, CreatePipeOptions, Setter, set_pipe_mode, set_access_inbound,
  set_access_outbound, set_first_pipe_instance, set_reject_remote_clients, set_max_instances,
  set_out_buffer_size, set_in_buffer_size, set_custom_flags, new, apply, build, bool_flag,
}

-- The values that the documentation of Windows gives.
abbrev pub documented : PipeFlags
documented = record {
  access_inbound = 1;
  access_outbound = 2;
  access_duplex = 3;
  first_pipe_instance = 0x80000;
  type_byte = 0;
  type_message = 4;
  reject_remote_clients = 8;
  unlimited_instances = 255;
}

-- The options as a user thinks of them.
pub record Options : Type 0 where
  pub inbound : Bool
  pub outbound : Bool
  pub first : Bool
  pub mode : PipeMode
  pub reject : Bool
  pub max_instances : ℕ
  pub out_buffer_size : ℕ
  pub in_buffer_size : ℕ
  pub default_timeout : ℕ
  pub custom_flags : ℕ

abbrev bit : Bool → ℕ → ℕ
bit true n = n
bit false n = 0

abbrev mode_bit : PipeMode → ℕ
mode_bit byte = 0
mode_bit message = 4

-- The words that stand for them.
abbrev pub encode : Options → CreatePipeOptions
encode v = record {
  open_mode = bit_or (bit_or (bit v.inbound 1) (bit v.outbound 2)) (bit v.first 0x80000);
  pipe_mode = bit_or (mode_bit v.mode) (bit v.reject 8);
  max_instances = v.max_instances;
  out_buffer_size = v.out_buffer_size;
  in_buffer_size = v.in_buffer_size;
  default_timeout = v.default_timeout;
  custom_flags = v.custom_flags;
}

-- What each call sets. Setting the mode also lets remote clients in.
abbrev pub choose : Setter → Options → Outcome Options
choose (set_pipe_mode m) v = ok (record v { mode = m; reject = false })
choose (set_access_inbound b) v = ok (record v { inbound = b })
choose (set_access_outbound b) v = ok (record v { outbound = b })
choose (set_first_pipe_instance b) v = ok (record v { first = b })
choose (set_reject_remote_clients b) v = ok (record v { reject = b })
choose (set_max_instances n) v = if ltb n 255 then ok (record v { max_instances = n }) else panic
choose (set_out_buffer_size n) v = ok (record v { out_buffer_size = n })
choose (set_in_buffer_size n) v = ok (record v { in_buffer_size = n })
choose (set_custom_flags n) v = ok (record v { custom_flags = n })

abbrev pub encoded : Outcome Options → Outcome CreatePipeOptions
encoded (ok v) = ok (encode v)
encoded (err e) = err e
encoded panic = panic

abbrev access : Bool → Bool → Bool → ℕ
access i o f = bit_or (bit_or (bit i 1) (bit o 2)) (bit f 0x80000)

flag_inbound : (i o f b : Bool) → bool_flag (access i o f) b 1 ≡ access b o f
unfolding bool_flag
flag_inbound i o f b = ground arith

flag_outbound : (i o f b : Bool) → bool_flag (access i o f) b 2 ≡ access i b f
unfolding bool_flag
flag_outbound i o f b = ground arith

flag_first : (i o f b : Bool) → bool_flag (access i o f) b 0x80000 ≡ access i o b
unfolding bool_flag
flag_first i o f b = ground arith

flag_reject :
    (m : PipeMode) (r b : Bool)
    → bool_flag (bit_or (mode_bit m) (bit r 8)) b 8 ≡ bit_or (mode_bit m) (bit b 8)
unfolding bool_flag
flag_reject byte r b = ground arith
flag_reject message r b = ground arith

apply-documented : (s : Setter) (v : Options) → apply documented s (encode v) ≡ encoded (choose s v)
unfolding apply
apply-documented (set_pipe_mode byte) v = refl
apply-documented (set_pipe_mode message) v = refl
apply-documented (set_access_inbound b) v = rw (flag_inbound v.inbound v.outbound v.first b)
apply-documented (set_access_outbound b) v = rw (flag_outbound v.inbound v.outbound v.first b)
apply-documented (set_first_pipe_instance b) v = rw (flag_first v.inbound v.outbound v.first b)
apply-documented (set_reject_remote_clients b) v = rw (flag_reject v.mode v.reject b)
apply-documented (set_max_instances n) v = ground arith
apply-documented (set_out_buffer_size n) v = refl
apply-documented (set_in_buffer_size n) v = refl
apply-documented (set_custom_flags n) v = refl

abbrev pub choose_all : List Setter → Options → Outcome Options
choose_all [] v = ok v
choose_all (s ∷ ss) v = and_then (choose s v) (choose_all ss)

abbrev pub defaults : Options
defaults = record {
  inbound = true;
  outbound = true;
  first = false;
  mode = byte;
  reject = true;
  max_instances = 255;
  out_buffer_size = 65536;
  in_buffer_size = 65536;
  default_timeout = 0;
  custom_flags = 0;
}

and_then-encoded :
    (ss : List Setter) (r : Outcome Options)
    → ((v : Options) → build documented ss (encode v) ≡ encoded (choose_all ss v))
    → and_then (encoded r) (build documented ss) ≡ encoded (and_then r (choose_all ss))
and_then-encoded ss (ok v) ih = ih v
and_then-encoded ss (err e) ih = refl
and_then-encoded ss panic ih = refl

build-documented :
    (ss : List Setter) (v : Options) → build documented ss (encode v) ≡ encoded (choose_all ss v)
unfolding build
build-documented [] v = refl
build-documented (s ∷ ss) v =
    ap (λ r. and_then r (build documented ss)) (apply-documented s v)
    ∙ and_then-encoded ss (choose s v) (build-documented ss)

-- The builder refines the options kept apart: with the documented values of the constants, any chain
-- of calls from `new` gives the words that stand for what the chain chose, or panics where it asks
-- for 255 instances or more.
pub build-choose_all :
    (f : PipeFlags) (ss : List Setter)
    → f ≡ documented
    → build f ss (new f) ≡ encoded (choose_all ss defaults)
build-choose_all f ss e = rw e (unfold new in build-documented ss defaults)

abbrev pub rejects : PipeFlags → Outcome CreatePipeOptions → ℕ
rejects f (ok o) = bit_and o.pipe_mode f.reject_remote_clients
rejects f (err _) = 0
rejects f panic = 0

-- Setting the mode clears the flag that rejects remote clients, whatever it was and whatever mode is
-- set; after that the setter of the flag sets it again.
pub pipe_mode-clears_reject :
    (f : PipeFlags) (m : PipeMode) (o : CreatePipeOptions)
    → f ≡ documented
    → (rejects f (apply f (set_pipe_mode m) o) ≡ 0)
      × (rejects f
            (and_then (apply f (set_pipe_mode m) o) (apply f (set_reject_remote_clients true)))
          ≡ f.reject_remote_clients)
pipe_mode-clears_reject f byte o d = rw d (unfold apply in (refl, refl))
pipe_mode-clears_reject f message o d = rw d (unfold apply in (refl, refl))
