-- ===== src/Scripts/Miner/Main.antt =====
-- `main` and `publish_forever` of scripts/run_miner.py: what is checked before a miner is built, and
-- what runs beside it.
pub mod Published
use mathlib.Core.Option.{map as on_value}
use sentinel_subnet.SevSnp.Guest.{Device}
use sentinel_subnet.SevSnp.Guest.Cached.{SiliconError, new_silicon, read_measurement}
use sentinel_subnet.Serving.Handler.{MinerHandler}
use sentinel_subnet.Chain.Discovery.{publish_axon}
use sentinel_subnet.Scripts.Silicon.{MinerError}
use sentinel_subnet.Scripts.Miner.{MinerArgs}
use sentinel_subnet.Base.Result.{Result, err, map_err, map_ok, ok, or_raise, raise_if, ◌>>=◌, ◌>>◌}
use sentinel_subnet.Base.Text.{Text, codes, truthy}
use sentinel_subnet.Base.{
  Bool, List, Option, [], given_or, if◌then◌else◌, is_some, none, not, some, ℕ, ◌&&◌, ◌∷◌,
}

-- The rest of the command line; `miner` has what `build_miner` reads, but for the measurement.
pub record MainArgs : Type 0 where
  pub miner : MinerArgs
  pub measurement : Option Text
  pub no_seed : Bool
  pub no_chain : Bool
  pub advertise_ip : Option Text
  pub port : ℕ
  pub hotkey_ss58 : Option Text
  pub print_measurement : Bool

-- What ends `main`: the parser's errors, or an exception.
pub data MainError : Type 0 where
  measurement_missing advertise_ip_missing needs_no_chain : MainError
  not_measured : SiliconError → MainError
  not_built : MinerError → MainError

-- A running miner: the handler that is served, where its endpoint is published, and whether its
-- allowlist is refreshed.
pub record Running : Type 0 where
  pub handler : MinerHandler
  pub published : Option (Text × ℕ)
  pub refreshes : Bool

-- What `main` does: it prints, or serves until a signal.
pub data MainEnd : Type 0 where
  no_guest_here : MainEnd
  printed : Text → MainEnd
  serves : Running → MainEnd

abbrev pub mock_hotkey : Text
mock_hotkey = codes "mock-hotkey"

-- The measurement, where nothing is missing
unfoldable pub check_args : MainArgs → Result MainError Text
unfolding truthy
check_args a = do
  measurement ← or_raise (truthy a.measurement) measurement_missing
  raise_if (not a.no_chain && not (is_some (truthy a.advertise_ip))) advertise_ip_missing
  raise_if (is_some (truthy a.hotkey_ss58) && not a.no_chain) needs_no_chain
  ok measurement

-- Under which hotkey the miner serves; `wallet` is the wallet's.
unfoldable pub served_hotkey : MainArgs → (wallet : Text) → Text
unfolding truthy
served_hotkey a wallet = if a.no_chain then given_or (truthy a.hotkey_ss58) mock_hotkey else wallet

unfoldable pub miner_args : MainArgs → (measurement : Text) → MinerArgs
miner_args a measurement = record a.miner {
  measurement = measurement;
  seed = if a.no_seed then none else a.miner.seed;
}

-- What runs beside the server: the thread that publishes, and the one that refreshes.
unfoldable pub start : MainArgs → MinerHandler → Running
start a handler = record {
  handler = handler;
  published = if a.no_chain then none else on_value (λ (ip : Text). (ip, a.port)) a.advertise_ip;
  refreshes = is_some handler.allowed_hotkeys && not a.miner.allow.no_allow_validators;
}

-- `--print-measurement`
unfoldable pub print_own : Device → Result MainError MainEnd
unfolding new_silicon read_measurement
print_own device = elim (new_silicon device 0) [
  | err e ↦ ok no_guest_here
  | ok s ↦ map_ok printed (map_err not_measured (read_measurement device s).0)
]

-- `main`, where `build` is `build_miner` on these arguments and this hotkey.
unfoldable pub main :
    Device
    → (build : MinerArgs → (hotkey_ss58 : Text) → Result MinerError MinerHandler) → MainArgs
    → (wallet : Text) → Result MainError MainEnd
unfolding check_args served_hotkey miner_args start print_own
main device build a wallet = if a.print_measurement then print_own device else do
  measurement ← check_args a
  handler ← map_err not_built (build (miner_args a measurement) (served_hotkey a wallet))
  ok (serves (start a handler))

-- `publish_forever`, over the rounds until it is told to stop: what each one published. `none` is a
-- chain that is not reached or an exception, after which the next round is tried.
unfoldable pub publish_forever :
    {R : Type 0} (loopback : Text → Option Bool) (ip : Text) (port : ℕ)
    → List (Option ((ip : Text) (port : ℕ) → Option R))
    → List (Option R)
unfolding publish_axon
publish_forever loopback ip port [] = []
publish_forever loopback ip port (none ∷ rounds) = none ∷ publish_forever loopback ip port rounds
publish_forever loopback ip port (some serve ∷ rounds) =
    given_or (publish_axon loopback serve ip port) none ∷ publish_forever loopback ip port rounds
