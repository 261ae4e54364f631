-- ===== src/Tests/Pipes.antt =====
-- Tests of the builder of named pipes.
use aiocp.Prelude.{◌≡◌, refl, true, false, List, [], ◌∷◌}
use aiocp.Io.{and_then}
use aiocp.Pipe.{
  Setter, message, set_pipe_mode, set_access_inbound, set_first_pipe_instance,
  set_reject_remote_clients, set_max_instances, new, build, apply,
}
use aiocp.Pipe.Flags.{
  documented, encode, defaults, encoded, choose_all, rejects, build-choose_all,
  pipe_mode-clears_reject,
}

abbrev calls : List Setter
calls =
    set_pipe_mode message
    ∷ set_access_inbound false
    ∷ set_first_pipe_instance true
    ∷ set_max_instances 9
    ∷ []

build-choose_all_example :
    build documented calls (new documented) ≡ encoded (choose_all calls defaults)
build-choose_all_example = build-choose_all documented calls refl

pipe_mode-clears_reject_example :
    (rejects documented (apply documented (set_pipe_mode message) (encode defaults)) ≡ 0)
    × (rejects documented (
          and_then
            (apply documented (set_pipe_mode message) (encode defaults))
            (apply documented (set_reject_remote_clients true)))
        ≡ 8)
pipe_mode-clears_reject_example = pipe_mode-clears_reject documented message (encode defaults) refl
