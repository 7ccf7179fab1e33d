-- ===== src/Lib.antt =====
-- libsocialweb, a daemon that shows items (photos, messages, contacts) of social web sites to its
-- clients over D-Bus. A service fetches items and hands sets of them to views; a view compares a set
-- with what it shows and tells its client what is new, changed and gone. An item may have to wait for
-- its images before it is shown.
--
--   Set            libsocialweb/sw-set.c: counted sets of objects over a GHashTable
--   Dict           a GHashTable with texts for keys, as the other files use it
--   Item           libsocialweb/sw-item.c: the table of an item, its image fetches and its equality
--   Contact        libsocialweb/sw-contact.c: the lists of a contact, its fetches and its equality
--   ItemView       libsocialweb/sw-item-view.c: what a client is shown and what it is told
--   ClientView     libsocialweb-client/sw-client-item-view.c: the copy of a view in the client's library
--   CallList       libsocialweb/sw-call-list.c: outstanding calls and their weak references
--   Service        libsocialweb/sw-service.c, libsocialweb/sw-banned.c: hidden items, capabilities
--   ClientMonitor  libsocialweb/sw-client-monitor.c: the objects that each client of the bus uses
--   Cache          libsocialweb/sw-cache.c, libsocialweb/sw-cacheable.c: items and contacts kept on disk
--   Keystore       libsocialweb-keystore/sw-keystore.c: the keys of services, from directories and the kernel
--   Unescape       libsocialweb/sw-utils.c: the entities of a text, replaced in its own memory
--   Flickr         services/flickr/flickr-credentials-manager.c: keys and tokens of the Flickr service
--   Credentials    services/flickr/flickr-credentials.c: the interface for such keys and tokens
--   Goa            services/flickr/flickr-credentials-manager-goa.c: the same from Online Accounts
--   Twitter        services/twitter/twitter.c: the credentials and the capabilities announced
--   Vimeo          services/vimeo/vimeo.c: the upload of a video and the albums of clients
--   Online         libsocialweb/sw-online.c: the online state and its listeners
--   Keyfob         libsocialweb-keyfob: the tokens that the keyring has for a proxy
--   FlickrService  services/flickr/flickr.c: the state of the Flickr service and its capabilities
--   Core           libsocialweb/sw-core.c: the modules of the services, loaded from files
--   Photos         services/flickr/flickr-item-view.c: the photos of a response as a set of items
--
-- A function keeps its name without the prefix of its file: `set_add` in Set is sw_set_add, `put` in
-- Item is sw_item_put (and sw_item_take), `set_from_set` in ItemView is sw_item_view_set_from_set.
-- A call that changes an object returns the new object; the signals that it emits are a list beside
-- it, and what goes over the bus is a list in the view. Objects are pointers, numbers, wherever
-- their identity matters: a view holds pointers into a heap of items, given to its operations as a
-- function, so that an item may change while a view holds it. A GHashTable is the list of its
-- entries; the order in which it is walked is that of the list, which the theorems leave open.
--
-- Counts that C keeps in 32 bits are bit patterns with the wrap-around written out. `time_t` is an
-- integer, cut to 32 bits where the code does so. Every loop but one walks a list; the one of
-- sw_unescape_entities has the size of its block as fuel, which is enough because each round
-- leaves a byte behind.
--
-- GLib's source ids, the clock, libsoup's date parser, the names that services give themselves,
-- the answers of the keystore, of the keyfob and of the REST library, whether a file can be
-- written, the text of a GKeyFile and its list syntax, the nodes of an XML response, what GModule
-- finds in a file, what GIO says of a directory, the items of the keyring, base 64, MD5, and the replies
-- of Vimeo and Twitter are arguments. Where an item has no id the
-- code passes NULL to a hash or a comparison; the model goes on there, and the theorems on views
-- assume that every item has one. In Photos and Core such a NULL is a crash, which the result
-- says.
--
-- Not modelled: reference counts of items and services, GObject class and property code, D-Bus
-- registration, printing, the contact views, the item streams, the core
-- but for its loading of modules, and the services other than Flickr but for
-- the uploads of Vimeo and the credentials of Twitter.
pub mod Prelude
pub mod Set
pub mod Core
pub mod Credentials
pub mod FlickrService
pub mod Dict
pub mod Item
pub mod ItemView
pub mod CallList
pub mod Contact
pub mod Photos
pub mod Service
pub mod Flickr
pub mod Goa
pub mod Keyfob
pub mod Online
pub mod Twitter
pub mod Vimeo
pub mod Cache
pub mod ClientMonitor
pub mod Keystore
pub mod Unescape
pub mod ClientView
