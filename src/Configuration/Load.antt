-- ===== src/Configuration/Load.antt =====
-- configuration/configuration.go: when `LoadConfiguration` succeeds, and with what.
use rosetta_casper.Common.{
  ◌<◌, ◌≡◌, ◌≢◌, refl, ◌⊎◌, ◌↔◌, [], Text, lit, text_eq, text_eq_iff, arith, ℤ, pos_part, false,
}
use rosetta_casper.Go.Outcome.{ok}
use rosetta_casper.Go.Outcome.Chain.{>>=-eq-ok, ok_injective}
use rosetta_casper.Go.Decimal.{atoi}
use rosetta_casper.Configuration.{
  Mode, online, offline, Configuration, NetworkChoice, online_text, offline_text, mainnet_text,
  testnet_text, mode_env, network_env, port_env, mainnet, testnet, read_mode, read_network,
  read_port, load_configuration,
}

abbrev pub ModeOf : Text → Mode → Type 0
ModeOf value mode =
    ((value ≡ online_text) × (mode ≡ online)) ⊎ ((value ≡ offline_text) × (mode ≡ offline))

abbrev pub ChoiceOf : Text → NetworkChoice → Type 0
ChoiceOf value choice =
    ((value ≡ mainnet_text) × (choice ≡ mainnet)) ⊎ ((value ≡ testnet_text) × (choice ≡ testnet))

abbrev pub PortOf : Text → ℤ → Type 0
PortOf value port = (atoi value ≡ ok port) × (0 < pos_part port)

abbrev pub choice_of : Configuration → NetworkChoice
choice_of c = record { network = c.network; genesis_block_identifier = c.genesis_block_identifier }

-- The environment that a configuration is read from.
pub record IsLoaded (getenv : Text → Text) (c : Configuration) : Type 0 where
  pub mode : ModeOf (getenv mode_env) c.mode
  pub network : ChoiceOf (getenv network_env) (choice_of c)
  pub port : PortOf (getenv port_env) c.port

read_mode_iff : (value : Text) (mode : Mode) → (read_mode value ≡ ok mode) ↔ ModeOf value mode
unfolding read_mode lit
read_mode_iff value mode =
    ground (arith, text_eq_iff value online_text, text_eq_iff value offline_text)

testnet-ne-mainnet : text_eq testnet_text mainnet_text ≡ false
unfolding lit text_eq
testnet-ne-mainnet = refl

read_network_iff :
    (value : Text) (choice : NetworkChoice)
    → (read_network value ≡ ok choice) ↔ ChoiceOf value choice
unfolding read_network
read_network_iff value choice =
    ground
      (arith, text_eq_iff value mainnet_text, text_eq_iff value testnet_text, testnet-ne-mainnet)

atoi-nil : (port : ℤ) → atoi [] ≢ ok port
unfolding atoi
atoi-nil port e = cc

read_port_iff : (value : Text) (port : ℤ) → (read_port value ≡ ok port) ↔ PortOf value port
unfolding read_port
read_port_iff value port = ground (arith, text_eq_iff value [], atoi-nil port)

load_configuration_sound :
    (getenv : Text → Text) (c : Configuration)
    → load_configuration getenv ≡ ok c
    → IsLoaded getenv c
unfolding load_configuration
load_configuration_sound getenv c e =
    let (mode, m, e1) = >>=-eq-ok (read_mode (getenv mode_env)) _ e in
    let (choice, n, e2) = >>=-eq-ok (read_network (getenv network_env)) _ e1 in
    let (port, p, e3) = >>=-eq-ok (read_port (getenv port_env)) _ e2 in
    rw (← (ok_injective _ _ e3)) (record {
      mode = (read_mode_iff (getenv mode_env) mode).0 m;
      network = (read_network_iff (getenv network_env) choice).0 n;
      port = (read_port_iff (getenv port_env) port).0 p;
    })

load_configuration_complete :
    (getenv : Text → Text) (c : Configuration)
    → IsLoaded getenv c
    → load_configuration getenv ≡ ok c
unfolding load_configuration
load_configuration_complete getenv c l = rw ((read_mode_iff (getenv mode_env) c.mode).1 l.mode) (
    rw ((read_network_iff (getenv network_env) (choice_of c)).1 l.network)
      (rw ((read_port_iff (getenv port_env) c.port).1 l.port) refl))

-- Loading succeeds with a configuration exactly if the three variables name it: the mode and the
-- network are among the two known of each, the genesis block is that of the network, and the port
-- is a decimal number above 0 that fits an int.
pub load_configuration_iff :
    (getenv : Text → Text) (c : Configuration)
    → (load_configuration getenv ≡ ok c) ↔ IsLoaded getenv c
load_configuration_iff getenv c =
    (λ e. load_configuration_sound getenv c e, λ l. load_configuration_complete getenv c l)
