-- ===== src/Configuration/Print.antt =====
-- configuration/configuration.go: every configuration is loaded from an environment that prints it.
use rosetta_casper.Common.{
  ℕ, ◌^◌, ◌<◌, ◌≡◌, refl, inl, inr, [], Text, lit, text_eq, pos, if◌then◌else◌,
}
use rosetta_casper.Go.Decimal.{show_int}
use rosetta_casper.Go.Decimal.Parse.{atoi-show_int}
use rosetta_casper.Go.Outcome.{ok}
use rosetta_casper.Configuration.{
  Mode, online, offline, Configuration, NetworkChoice, online_text, offline_text, mainnet_text,
  testnet_text, mode_env, network_env, port_env, mainnet, testnet, load_configuration,
}
use rosetta_casper.Configuration.Load.{ModeOf, ChoiceOf, load_configuration_iff}

-- The two networks that are known.
pub data Known : Type 0 where
  main test : Known

abbrev choice : Known → NetworkChoice
choice main = mainnet
choice test = testnet

abbrev mode_text : Mode → Text
mode_text online = online_text
mode_text offline = offline_text

abbrev network_text : Known → Text
network_text main = mainnet_text
network_text test = testnet_text

abbrev pub environment_of : Mode → Known → ℕ → Text → Text
environment_of mode network port name =
    if text_eq name mode_env
    then mode_text mode
    else if text_eq name network_env
    then network_text network
    else if text_eq name port_env
    then show_int (pos port)
    else []

abbrev pub configuration_of : Mode → Known → ℕ → Configuration
configuration_of mode network port = record {
  mode = mode;
  network = (choice network).network;
  genesis_block_identifier = (choice network).genesis_block_identifier;
  port = pos port;
}

mode-ModeOf : (m : Mode) → ModeOf (mode_text m) m
mode-ModeOf online = inl (refl, refl)
mode-ModeOf offline = inr (refl, refl)

network-ChoiceOf : (k : Known) → ChoiceOf (network_text k) (choice k)
network-ChoiceOf main = inl (refl, refl)
network-ChoiceOf test = inr (refl, refl)

-- For both modes, both networks and each port above 0 that fits an int, the environment that prints
-- them is loaded as the configuration that is made of them.
pub load_configuration-environment_of :
    (mode : Mode) (network : Known) (port : ℕ)
    → 0 < port
    → port < 2 ^ 63
    → load_configuration (environment_of mode network port)
      ≡ ok (configuration_of mode network port)
unfolding lit text_eq
load_configuration-environment_of mode network port positive small =
    (load_configuration_iff (environment_of mode network port)
        (configuration_of mode network port)).1
      (record {
        mode = mode-ModeOf mode;
        network = network-ChoiceOf network;
        port = (atoi-show_int port small, positive);
      })
