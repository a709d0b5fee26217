-- ===== src/Controller/Created.antt =====
-- What a creation that succeeds has stored: the pod of the game server.
use Prim.Native.String.{◌++◌}
use kterodactyl.Prelude.{
  true, false, List, ℕ, ◌≡◌, ◌⊎◌, some, none, [], ◌∷◌, String, ◌==◌, text_at, if◌then◌else◌,
}
use kterodactyl.Lifecycle.{starting}
use kterodactyl.Labels.{
  annotation_mod_path, label_owner, label_managed_by, managed_by_value, label_name, app_name_value,
  label_game,
}
use kterodactyl.Kube.Errors.{ok}
use kterodactyl.Kube.Meta.{Meta, key_of}
use kterodactyl.Kube.Objects.{
  GameServer, game_servers, never, VolumeMount, Volume, Container, Pod, pods,
}
use kterodactyl.Kube.Exec.{Exec, pure, wrapping}
use kterodactyl.Kube.Exec.Leaves.{Leaves}
use kterodactyl.Kube.Platform.{Platform, Laws}
use kterodactyl.Controller.Config.{AdminConfig}
use kterodactyl.Controller.Pods.{mutate_pod, blank_pod, reconcile_mod_pvc}
use kterodactyl.Controller.Status.{IsMoved, HasConditions}

-- the mounts and volumes of a pod: those of the mods, if the game server has a path for them
pub data HasModStorage (gs : GameServer) (mounts : List VolumeMount) (volumes : List Volume)
    : Type 0 where
  without_mods :
      (text_at annotation_mod_path gs.meta.annotations == "") ≡ true
      → mounts ≡ []
      → volumes ≡ []
      → HasModStorage gs mounts volumes
  with_mods :
      (text_at annotation_mod_path gs.meta.annotations == "") ≡ false
      → mounts
        ≡ record { name = "mods"; mount_path = text_at annotation_mod_path gs.meta.annotations }
          ∷ []
      → volumes ≡ record { name = "mods"; claim_name = gs.meta.name ++ "-mods" } ∷ []
      → HasModStorage gs mounts volumes

-- a pod that runs what the specification of a game server says, in one container
pub record RunsServer (gs : GameServer) (pod : Pod) : Type 0 where
  pub container : Container
  pub only_container : pod.spec.containers ≡ container ∷ []
  pub container_name : container.name ≡ "gameserver"
  pub same_image : container.image ≡ gs.spec.image
  pub same_ports : container.ports ≡ gs.spec.ports
  pub same_resources : container.resources ≡ gs.spec.resources
  pub same_parameters : container.env ≡ gs.spec.parameters
  pub mod_storage : HasModStorage gs container.volume_mounts pod.spec.volumes
  pub never_restarts : pod.spec.restart_policy ≡ never

module _ {S : Type 0} (p : Platform S) (gs : GameServer) where
  -- The metadata of a pod, from that of an older one: the labels of the game server, and its owner.
  abbrev pub IsLabelled : Meta → Meta → Type 0
  IsLabelled old new =
      p.set_controller_reference gs (record old {
        labels =
            (label_managed_by, managed_by_value)
            ∷ (label_name, app_name_value)
            ∷ (label_owner, text_at label_owner gs.meta.labels)
            ∷ (label_game, gs.spec.game_type)
            ∷ [];
      })
      ≡ ok new

module _ {S : Type 0} {p : Platform S} (l : Laws p) (gs : GameServer) where
  -- The pod that is stored is the one that was there, or a blank one, after the mutation.
  abbrev MutatesPod : S → S → Type 0
  MutatesPod s s' =
      (old new : Pod) × ((l.at pods s (key_of gs.meta) ≡ some old)
        ⊎ ((l.at pods s (key_of gs.meta) ≡ none) × (old ≡ blank_pod gs)))
      × (mutate_pod p gs old ≡ ok new)
      × (l.at pods s' (key_of gs.meta) ≡ some new)

module _ {S : Type 0} {p : Platform S} (l : Laws p) (now : ℕ) (gs : GameServer)
    (cfg : AdminConfig) where
  abbrev mod_claim : Exec S (Unit {0})
  mod_claim =
      if text_at annotation_mod_path gs.meta.annotations == ""
      then pure tt
      else wrapping "failed to reconcile mod PVC" (reconcile_mod_pvc p gs cfg)

  -- The pod that a creation stores, and the one from before.
  abbrev pub HasPod : S → S → Type 0
  HasPod s s' =
      (old new : Pod) × ((l.at pods s (key_of gs.meta) ≡ some old)
        ⊎ ((l.at pods s (key_of gs.meta) ≡ none) × (old ≡ blank_pod gs)))
      × (l.at pods s' (key_of gs.meta) ≡ some new)
      × RunsServer gs new
      × IsLabelled p gs old.meta new.meta
      × (new.status ≡ old.status)

  -- the stored game server, before and after
  abbrev pub HasStarted : S → S → Type 0
  HasStarted s s' =
      (old new : GameServer) × (l.at game_servers s (key_of gs.meta) ≡ some old)
      × (l.at game_servers s' (key_of gs.meta) ≡ some new)
      × IsMoved starting old new
      × HasConditions starting old.status.conditions new.status.conditions
