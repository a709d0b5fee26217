-- ===== src/Api/Isolation/Mods.antt =====
-- Requests for mods, and with them all the requests of the routes under a game server, reach the
-- objects of their own namespace only.
use kterodactyl.Kube.Platform.{Platform}
use kterodactyl.Backups.Storage.{Storage}
