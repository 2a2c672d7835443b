-- ===== src/Lib.antt =====
-- The web views of Colt core: the list of files that a user edits as boxes in a text field, the
-- cutting of long log messages, the cutting of content to a height, tooltips, scrolling, the page of the
-- log, the chart of the log visualizer, and the event of an element's new size.
--
-- All paths are below src/main/resources/codeOrchestra/colt/core/ui/components/.
--
-- The widget: fileset/html/jquery-textboxlist.js. `$.TextboxList` keeps a list of bits
-- (`$.TextboxListBit`), each a box with a value or an editable input field, and writes the values of
-- the boxes into a field of the form. A bit calls the list back (`onAdd`, `onRemove`, `onFocus`,
-- `onBlur`) and fires events, which the list's table maps to functions.
-- - TextboxList.Host: what the script calls of jQuery and of the browser, as a record of functions with
--   their documented behaviour.
-- - TextboxList.Codec: the options `encode` and `decode`.
-- - TextboxList.Events: `addEvent`, `removeEvent`, `fireEvent`, on functions known by a number.
-- - TextboxList.Widget: the state, `getValues`, `update`, `getText`, `fireBitEvent`; also `fireUpdate`
--   of the page, since it is a function that the table holds.
-- - TextboxList.Bits: `create`, `inject`, `onAdd`, `toBox`, `add`, `setValues`, `clear`,
--   `setNewValues`. A bit has a number as its identity; `current` and the calls name bits by it.
-- - TextboxList.Focus: `focus`, `blur`, `onFocus`, `onBlur`, `focusRelative`, `remove`, `onRemove`.
-- - TextboxList.Input: the handlers of the keyboard, the mouse, the clipboard and the text area.
-- - TextboxList.Caret: `getCaret`, `getCaretEnd` and `isSelected`, with the ranges of Internet Explorer as
--   a field's data with their documented texts.
-- - TextboxList.Actions: what `afterInit` and the page make, and the actions of the user, the blur
--   timer and the application as steps from there, short of removal and pasting.
-- The handlers that the browser runs while the script changes the focus (the `blur` of an input field
-- makes its text a box) are run where the script triggers them.
--
-- The page: fileset/html/fileset-webview.html. TextboxList.Fileset has `addFile`, `setFiles` and
-- `getFiles`, which the application calls. The page tells the application what the user changed by
-- `alert("command:update:…")`; these commands are a list in the state.
--
-- The cutting of messages: shared/trunk8.js. Trunk8 has `eatStr` with its cache and its errors,
-- Trunk8.Truncate the search for the longest text that fits, and `init`, `update` and `revert`. The
-- height of an element is a function of its content, a parameter (`Browser`). Trunk8.Methods has
-- `$.fn.trunk8` with its methods by name, Trunk8.LineHeight `getLineHeight`, and Trunk8.Html
-- `rebuildHtmlFromBite`.
--
-- The tooltips of the log page: shared/jquery.tipsy.js. Tipsy has `fixTitle`, `getTitle`, `show`,
-- `hide`, `enter` and `leave`, whose timers are counted and run as events of their own, in any order;
-- Tipsy.Hovering has the states that events reach. Tipsy.Gravity has `autoNS`, `autoWE` and
-- `autoBounds`, Tipsy.Place the place where `show` puts a tip, and Tipsy.Elements the methods by name and
-- `revalidate`.
--
-- The page of the log: log/html/log-webview.html, which calls trunk8.js, jquery.tipsy.js and
-- jquery.scroll-to.js as they are modelled here.
-- - LogPage.Messages: `parseLogMessageObject`, the texts of links, and the part of a batch that is kept.
-- - LogPage.State: the items, the counter `messageCount`, the pending syntax error, and the queue
--   `forUpdateDot`; what the browser measures and what `getVisible` answers is a parameter (`Moment`)
--   that may be another one at each call.
-- - LogPage.Cutting: `dotdotdot`. LogPage.Adding: `addLogMessages`, `addLogMessage`, `removeFirst`,
--   `clear`. LogPage.Selecting: `selectLogElement`, with the click and the keys. LogPage.Updating:
--   `updateDotdotdot` and its interval. LogPage.Filtering: `filter` and `updateVisible`.
-- - LogPage.Actions: what the application, the user and the timers do, as steps from the empty page. The
--   application (LogWebView.groovy) calls `addLogMessages`, `clear`, `removeFirst`, `filter` and
--   `applicationResize`; F5 calls `test`, with messages of the page's own script.
-- - LogPage.Shown: the messages that the page is to show, as a list with a counter; LogPage.Ring: how
--   the counter goes with the list; LogPage.History: the list as the last messages that have come.
-- - The other modules of LogPage hold what is kept by each step: Kept, Calls and Cuts by the calls of
--   trunk8.js, Sound, Steps and Marking by changes of the list, Growing, Arriving, Looking, Choosing
--   and Keys by the functions of the page, and Refinement by all.
-- An exception ends a call where it is raised, with the page as it is then (`thrown`).
--
-- The log visualizer: logVisualizer/html/log-visualizer-webview.html. LogVisualizer has
-- `addLogMessages`, `start`, `stop` and `pause`, LogVisualizer.Draw `draw`, whose squares and ticks are
-- lists; its two loops run on the width of the window as fuel, which is enough since a column is 13
-- pixels wide and a tick stands at each fourth. The other modules below it are Kept (the batches that are
-- kept), Rows (the sums of the counts), Chart (the columns), Ticks, Whole (what the bound on the batches
-- costs) and Years (the seconds as a number of 32 bits).
--
-- The scrolling of the log page: shared/jquery.scroll-to.js. ScrollTo has `$.fn.scrollTo`.
--
-- The size of the page's body: shared/jquery-resize.js. Resize has the hooks `setup` and `teardown`,
-- of the event `resize`, and the loop `loopy`, whose handlers may bind and unbind as they run;
-- Resize.Handlers has the hook `add` with its two forms, and Resize.Polling the states that events reach.
-- The size of an element is a function that may be another one at each event.
--
-- The cutting of content to a height: shared/dotdotdot.js. Dotdotdot.Forest has the content of an
-- element, Dotdotdot.Content the options and the helpers on texts, Dotdotdot.Search the loop of
-- `ellipsisElement`, Dotdotdot.Ellipsis `ellipsis`, `ellipsisElement` and `children`, and
-- Dotdotdot.Plugin what `$.fn.dotdotdot` keeps for an element, with its events, queries and timers and with
-- `$.fn.html` and `$.fn.text`. What the browser measures is a parameter that may be another one at each
-- event.
--
-- Bounds. `Trunk8.Truncate.search` counts rounds from the length of the text: each round leaves at
-- most half of the places. `Dotdotdot.Search.search` counts rounds from twice the parts and the
-- letters of the first: each round makes the range shorter or is the last but one. `remove` nests
-- calls, to the depth of the number of bits and one; `none` is what comes of a smaller bound.
-- Numbers are natural numbers, since the scripts count places, characters and pixels; a place that
-- may lie outside the page, and the counter of the log page, which may fall below 0, are integers of
-- Base.Int.
--
-- Not modelled: plugins, CSS classes, the hover state, the markup of a bit, `requestFocus`, a
-- `bitsOptions` that changes one bit's options; of trunk8.js `getHtmlArr` and the search with
-- `parseHTML`, which is off on the page; of tipsy the classes and the fading of a tip; of
-- dotdotdot.js the element `after` behind lists and tables, and the callbacks; of the event `resize`
-- handlers that trigger the event again; of the methods by name those that every object inherits; of
-- the page of the log the alerts, copying, `app.resize` and sources that hold markup; of the log
-- visualizer the word under the legend, which is always the same. The page of the welcome screen
-- adds entries to a list and has no logic of its own; it, the other scripts in shared/, and the Java
-- and Groovy code have no model; jquery.js and jquery-ui-1.10.3.custom.js are copies of other
-- projects' libraries.
mod Base
pub mod TextboxList
pub mod Trunk8
pub mod Tipsy
pub mod Resize
pub mod Dotdotdot
pub mod ScrollTo
pub mod LogPage
pub mod LogVisualizer
