-- ===== src/Tests/Sharded.antt =====
-- The sharded client of fq/sync/sharded.py on small shards, and clients that are constructed.
use fq_client_py.Prelude.{ℕ, refl, List, [], ◌∷◌, none}
use fq_client_py.Errors.{ok, fq_connection_error}
use fq_client_py.Types.Tls.{Files}
use fq_client_py.Sync.Client.Construct.{construct}
use fq_client_py.Sync.Client.Construct.Prefilled.{Constructed, construct-Constructed}
use fq_client_py.Sync.Sharded.Construct.{new_sharded}
use fq_client_py.Sync.Sharded.Construct.Ends.{Settled, new_sharded-Settled}
use fq_client_py.Sync.Sharded.FanOut.{
  Put, event, error, FanOut, Run, rests, steps, puts, put_by, take_by, takes, fan_out,
}
use fq_client_py.Sync.Sharded.FanOut.Order.{Prefix, of_shard, Calm, Run-Prefix}
use fq_client_py.Tests.Network.{seconds, world_of, greeting}
use fq_client_py.Tests.Retries.{settings}

-- The first shard gives an event and the second fails.
abbrev pub streams : List (List (Put ℕ))
streams = (event 7 ∷ event 8 ∷ []) ∷ (error fq_connection_error ∷ []) ∷ []

abbrev put_one : FanOut ℕ
put_one = put_by 0 (event 7) (event 8 ∷ []) (fan_out streams)

abbrev failed : FanOut ℕ
failed = put_by 1 (error fq_connection_error) [] put_one

abbrev yielded : FanOut ℕ
yielded = take_by (0, event 7) ((1, error fq_connection_error) ∷ []) failed

abbrev ended : FanOut ℕ
ended = take_by (1, error fq_connection_error) [] yielded

taken_in_turns : Run (fan_out streams) ended
taken_in_turns = steps (puts 0 (event 7) (event 8 ∷ []) refl) (
    steps (puts 1 (error fq_connection_error) [] refl) (
      steps (takes (0, event 7) ((1, error fq_connection_error) ∷ []) refl refl)
        (steps (takes (1, error fq_connection_error) [] refl refl) rests)))

Run-Prefix_example : Prefix (of_shard 0 ended.taken) (event 7 ∷ event 8 ∷ []) × Calm ended
Run-Prefix_example = Run-Prefix streams taken_in_turns 0 (event 7 ∷ event 8 ∷ []) refl

abbrev no_files : Files
no_files = record { load_ca = λ path. ok tt; load_chain = λ cert key. ok tt }

construct-Constructed_example :
    Constructed none none 1 (construct seconds no_files none none settings 1 (world_of greeting))
construct-Constructed_example =
    construct-Constructed no_files none none settings 1 (world_of greeting)

-- The second of two shards cannot be reached, and the first is closed again.
new_sharded-Settled_example :
    Settled no_files none none 1 ((settings, world_of greeting) ∷ (settings, world_of []) ∷ []) (
      new_sharded seconds no_files none none 1
        ((settings, world_of greeting) ∷ (settings, world_of []) ∷ []))
new_sharded-Settled_example =
    new_sharded-Settled no_files none none 1 (settings, world_of greeting)
      ((settings, world_of []) ∷ [])
